-- ===== src/Rf/Air.antt =====
-- The end of `rfEnqueuePacket` against the start of `rfRecvThread`, both of rf.c.
use rf_gateway.Base.{
  ℕ, ◌+◌, ◌%◌, ◌/◌, ◌≤◌, ◌<◌, ◌≡◌, refl, true, Option, List, [], ◌∷◌, ◌++◌, arith, ==_refl, ok,
  length, get_or, u8, splice, span, slice-ok, length-splice, length-span, get_or-splice,
  get_or-span, span_ext, ◌∙◌,
}
use rf_gateway.Checksum.{crc16}
use rf_gateway.Crypto.{Evp}
use rf_gateway.Crypto.Laws.{CbcBlock}
use rf_gateway.Rf.{Rf, Device, i_src, i_len, i_data, max_packet_len, covered, key_owner, transmit}
use rf_gateway.Rf.Receive.{crc_ok, unprotect}
use rf_gateway.Rf.Seal.{
  randomised, sealed, checksum, length-randomised, get_or-randomised, seal-sealed, length-sealed,
  get_or-sealed, sealed-low, sealed-high, same_len,
}
use rf_gateway.Rf.Frame.{
  on_air, length-on_air, protect-on_air, opened, length-opened, unprotect-opened, get_or-opened,
}

-- The frame that `transmit` gives to `send`.
abbrev pub frame_of : (List ℕ → List ℕ) → Option ℕ → List ℕ → List ℕ
frame_of cipher rand buf = span (on_air cipher (sealed rand buf)) 0 25

module _ {evp : Evp} (owner : Device) (law : CbcBlock evp owner.key owner.iv) (rand : Option ℕ)
    (buf : List ℕ) (whole : length buf ≡ max_packet_len) (fits : get_or buf i_len 0 ≤ 241) where
  length-sent_air : length (on_air law.cipher (sealed rand buf)) ≡ max_packet_len
  length-sent_air = length-on_air law (sealed rand buf) (length-sealed rand buf whole fits)

  pub length-frame_of : length (frame_of law.cipher rand buf) ≡ 25
  length-frame_of =
      length-span (on_air law.cipher (sealed rand buf)) 0 25 (omega (arith, length-sent_air))

  pub transmit-frame_of :
      (d : Device) (w : Rf)
      → key_owner d w ≡ ok owner w
      → transmit evp rand d buf w
        ≡ ok tt (record w { sent = w.sent ++ frame_of law.cipher rand buf ∷ [] })
  unfolding transmit
  transmit-frame_of d w owned = rw (
    seal-sealed rand buf whole w fits,
    protect-on_air law (sealed rand buf) (length-sealed rand buf whole fits) d owner w owned refl
        refl,
    slice-ok (on_air law.cipher (sealed rand buf)) 0 25 w (omega (arith, length-sent_air)),
  )

module _ (rand : Option ℕ) (buf : List ℕ) (whole : length buf ≡ max_packet_len)
    (fits : get_or buf i_len 0 ≤ 10) where
  abbrev before : List ℕ
  before = randomised rand buf

  abbrev after : List ℕ
  after = sealed rand buf

  abbrev n : ℕ
  n = get_or buf i_len 0

  length-after : length after ≡ max_packet_len
  length-after = length-sealed rand buf whole (omega arith)

  -- A buffer that has the sealed bytes passes the check.
  crc_ok-same :
      (a : List ℕ) (w : Rf)
      → length a ≡ max_packet_len
      → ((i : ℕ) → i < 25 → get_or a i 0 ≡ get_or after i 0)
      → crc_ok a w ≡ ok true w
  unfolding crc_ok covered
  crc_ok-same a w room same =
      let len : get_or a i_len 0 ≡ n =
        same i_len (omega arith)
        ∙ get_or-sealed rand buf whole (omega arith) i_len (omega arith)
        ∙ get_or-randomised rand buf whole i_len (omega arith) in
      let short : u8 (9 + n) ≡ 9 + n = omega arith in
      let body : span a i_src (9 + n) ≡ span before i_src (9 + n) =
        span_ext a before i_src (9 + n) (omega arith)
          (omega (arith, length-randomised rand buf whole))
          λ i low high.
            same i (omega arith) ∙ get_or-sealed rand buf whole (omega arith) i (omega arith) in
      let next : i_data + n + 0 ≡ i_data + n = omega arith in
      let low : get_or (span a (i_data + n) 2) 0 0 ≡ checksum before % 256 =
        get_or-span a (i_data + n) 2 0
        ∙ rw next (same (i_data + n) (omega arith) ∙ sealed-low rand buf whole (omega arith)) in
      let high : get_or (span a (i_data + n) 2) 1 0 ≡ checksum before / 256 % 256 =
        get_or-span a (i_data + n) 2 1
        ∙ same (i_data + n + 1) (omega arith)
        ∙ sealed-high rand buf whole (omega arith) in
      rw (
        len,
        short,
        slice-ok a i_src (9 + n) w (omega arith),
        slice-ok a (i_data + n) 2 w (omega arith),
        body,
        low,
        high,
        same_len rand buf whole,
        ==_refl (crc16 (span before i_src (9 + n)) % 256),
        ==_refl (crc16 (span before i_src (9 + n)) / 256 % 256),
      )

  module _ {evp : Evp} (owner : Device) (law : CbcBlock evp owner.key owner.iv) where
    abbrev frame : List ℕ
    frame = frame_of law.cipher rand buf

    -- The buffer of a receiver after `recvfrom`.
    get_or-received :
        (rxbuf : List ℕ)
        → length rxbuf ≡ max_packet_len
        → (i : ℕ) → i < 25
        → get_or (splice rxbuf 0 frame) i 0 ≡ get_or (on_air law.cipher after) i 0
    get_or-received rxbuf room i lt =
        let len : length frame ≡ 25 = length-frame_of owner law rand buf whole (omega arith) in
        get_or-splice rxbuf 0 frame i (omega arith)
        ∙ ground (arith, get_or-span (on_air law.cipher after) 0 25 i)

    -- What is sent for a device is read by a receiver with the key that it was sealed under. The
    -- payload has at most 10 bytes, so that the checksum is in the 25 bytes of the frame; buffers
    -- have 256 bytes; `owner` is the holder of the key, whose cipher keeps the laws of CBC; the
    -- receiver `r` has the same key and vector, and `rxbuf` is its buffer before. Then `transmit`
    -- sends one frame of 25 bytes, the receiver decrypts it without a fault, its checksum test
    -- passes, and the header and the payload are the sender's, with the random byte in place.
    pub unprotect-transmit :
        (d r : Device) (w w' : Rf) (rxbuf : List ℕ)
        → key_owner d w ≡ ok owner w
        → r.key ≡ owner.key
        → r.iv ≡ owner.iv
        → length rxbuf ≡ max_packet_len
        → (frame : List ℕ) × (opened : List ℕ) × (transmit evp rand d buf w
            ≡ ok tt (record w { sent = w.sent ++ frame ∷ [] }))
          × (length frame ≡ 25)
          × (unprotect evp r (splice rxbuf 0 frame) w' ≡ ok opened w')
          × (crc_ok opened w' ≡ ok true w')
          × (span opened 0 (i_data + get_or buf i_len 0)
              ≡ span (randomised rand buf) 0 (i_data + get_or buf i_len 0))
    unprotect-transmit d r w w' rxbuf owned same_key same_iv room =
        let fit : get_or buf i_len 0 ≤ 241 = omega arith in
        let len : length frame ≡ 25 = length-frame_of owner law rand buf whole fit in
        let got = splice rxbuf 0 frame in
        let full : length got ≡ max_packet_len = length-splice rxbuf 0 frame (omega arith) ∙ room in
        let carries = get_or-received rxbuf room in
        let out = opened law after length-after got full carries in
        let out_len : length out ≡ max_packet_len =
          length-opened law after length-after got full carries in
        let back = get_or-opened law after length-after got full carries in
        (
          frame,
          out,
          transmit-frame_of owner law rand buf whole fit d w owned,
          len,
          unprotect-opened law after length-after got full carries r w' same_key same_iv,
          crc_ok-same out w' out_len back,
          span_ext out before 0 (i_data + n) (omega arith)
              (omega (arith, length-randomised rand buf whole))
              λ i low high. back i (omega arith) ∙ get_or-sealed rand buf whole fit i (omega arith),
        )
