-- ===== src/Crypto/Laws.antt =====
-- What OpenSSL documents of AES-128-CBC without padding, and what it makes of crypto.c.
use rf_gateway.Base.{ℕ, ◌≡◌, refl, some, List, [], length, append-nil}
use rf_gateway.Crypto.{Evp, Coded, coded, encrypt_packet, decrypt_packet}

-- Under this key and vector, contexts can be made, and with padding off one block of 16 bytes goes
-- through an update whole, leaves nothing for the finalisation, and is given back by the inverse.
pub record CbcBlock (evp : Evp) (key iv : List ℕ) : Type 0 where
  pub ctx : evp.Ctx
  pub enc : evp.Ctx
  pub dec : evp.Ctx
  pub made : evp.ctx_new ≡ some ctx
  pub enc_init : evp.encrypt_init ctx key iv ≡ some enc
  pub dec_init : evp.decrypt_init ctx key iv ≡ some dec
  pub cipher : List ℕ → List ℕ
  pub length-cipher : (block : List ℕ) → length block ≡ 16 → length (cipher block) ≡ 16
  pub encrypts :
      (block : List ℕ)
      → length block ≡ 16
      → (c : evp.Ctx) × (evp.encrypt_update (evp.set_padding enc 0) block ≡ some (c, cipher block))
        × (evp.encrypt_final c ≡ some [])
  pub decrypts :
      (block : List ℕ)
      → length block ≡ 16
      → (c : evp.Ctx) × (evp.decrypt_update (evp.set_padding dec 0) (cipher block)
          ≡ some (c, block))
        × (evp.decrypt_final c ≡ some [])

module _ {evp : Evp} {key iv : List ℕ} (law : CbcBlock evp key iv) (block : List ℕ)
    (whole : length block ≡ 16) where
  pub encrypt_packet-block : encrypt_packet evp block key iv ≡ some (coded (law.cipher block) 16)
  unfolding encrypt_packet
  encrypt_packet-block =
      let (c, update, final) = law.encrypts block whole in
      rw (law.made, law.enc_init, update, final, append-nil, law.length-cipher block whole)

  pub decrypt_packet-block : decrypt_packet evp (law.cipher block) key iv ≡ some (coded block 16)
  unfolding decrypt_packet
  decrypt_packet-block =
      let (c, update, final) = law.decrypts block whole in
      rw (law.made, law.dec_init, update, final, append-nil, whole)

  -- A block that `encryptPacket` made is given back by `decryptPacket` under the same key and
  -- vector; both report the 16 bytes.
  pub decrypt_packet-encrypt_packet :
      (c : Coded) × (encrypt_packet evp block key iv ≡ some c)
      × (c.out_len ≡ 16)
      × (decrypt_packet evp c.out key iv ≡ some (coded block 16))
  decrypt_packet-encrypt_packet =
      (coded (law.cipher block) 16, encrypt_packet-block, refl, decrypt_packet-block)
