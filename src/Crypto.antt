-- ===== src/Crypto.antt =====
-- `encryptPacket` and `decryptPacket` of crypto.c over OpenSSL's EVP interface, which is a parameter.
pub mod Laws
use rf_gateway.Base.{ℕ, ◌+◌, Option, none, some, List, [], ◌++◌, length}

-- The calls that crypto.c makes. A context stands for its whole state, `none` for the return value
-- 0; an update and a finalisation give the bytes that they write.
pub record Evp : Type 1 where
  pub Ctx : Type 0
  pub ctx_new : Option Ctx
  pub encrypt_init : Ctx → (key iv : List ℕ) → Option Ctx
  pub encrypt_update : Ctx → List ℕ → Option (Ctx × List ℕ)
  pub encrypt_final : Ctx → Option (List ℕ)
  pub decrypt_init : Ctx → (key iv : List ℕ) → Option Ctx
  pub decrypt_update : Ctx → List ℕ → Option (Ctx × List ℕ)
  pub decrypt_final : Ctx → Option (List ℕ)
  pub set_padding : Ctx → ℕ → Ctx

-- What a call leaves behind: the bytes at the start of `outBuf`, and the returned length.
pub record Coded : Type 0 where
  pub out : List ℕ
  pub out_len : ℕ

abbrev pub coded : List ℕ → ℕ → Coded
coded bytes n = record { out = bytes; out_len = n }

module _ (evp : Evp) where
  open evp use {
    Ctx, ctx_new, encrypt_init, encrypt_update, encrypt_final, decrypt_init, decrypt_update,
    decrypt_final, set_padding,
  }

  finish : (written : List ℕ) → Option (List ℕ) → Coded
  finish written none = coded written 0
  finish written (some rest) = coded (written ++ rest) (length written + length rest)

  finish_encrypt : Option (Ctx × List ℕ) → Coded
  unfolding finish
  finish_encrypt none = coded [] 0
  finish_encrypt (some (ctx, written)) = finish written (encrypt_final ctx)

  encrypt_from : (in_buf : List ℕ) → Option Ctx → Coded
  unfolding finish_encrypt
  encrypt_from in_buf none = coded [] 0
  encrypt_from in_buf (some ctx) = finish_encrypt (encrypt_update (set_padding ctx 0) in_buf)

  -- `none` is a null context, which the first call on it would dereference. `in_buf` holds the
  -- `inLen` bytes that are read.
  unfoldable pub encrypt_packet : (in_buf key iv : List ℕ) → Option Coded
  unfolding encrypt_from
  encrypt_packet in_buf key iv = elim ctx_new [
    | none ↦ none
    | some ctx ↦ some (encrypt_from in_buf (encrypt_init ctx key iv))
  ]

  finish_decrypt : Option (Ctx × List ℕ) → Coded
  unfolding finish
  finish_decrypt none = coded [] 0
  finish_decrypt (some (ctx, written)) = finish written (decrypt_final ctx)

  decrypt_from : (in_buf : List ℕ) → Option Ctx → Coded
  unfolding finish_decrypt
  decrypt_from in_buf none = coded [] 0
  decrypt_from in_buf (some ctx) = finish_decrypt (decrypt_update (set_padding ctx 0) in_buf)

  unfoldable pub decrypt_packet : (in_buf key iv : List ℕ) → Option Coded
  unfolding decrypt_from
  decrypt_packet in_buf key iv = elim ctx_new [
    | none ↦ none
    | some ctx ↦ some (decrypt_from in_buf (decrypt_init ctx key iv))
  ]
