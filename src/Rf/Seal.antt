-- ===== src/Rf/Seal.antt =====
-- The random byte, the checksum and the encryption that end a frame of rf.c.
use rf_gateway.Base.{
  ℕ, ◌+◌, ◌-◌, ◌%◌, ◌/◌, ◌≤◌, ◌<◌, ◌≡◌, ◌≢◌, refl, Option, none, some, List, [], ◌∷◌, arith,
  Bool-cases, ltb, ltb→lt, inl, inr, ok, fault, length, get_or, u8, bytes16, splice, span, patch-ok,
  patch-fault, slice-ok, slice-fault, length-splice, get_or-splice, ◌∙◌,
}
use rf_gateway.Checksum.{crc16}
use rf_gateway.Rf.{Rf, i_src, i_rnd, i_len, i_data, max_packet_len, rand_byte, seal}

-- The buffer with its random byte, if there is one.
abbrev pub randomised : Option ℕ → List ℕ → List ℕ
randomised none buf = buf
randomised (some r) buf = splice buf i_rnd (r ∷ [])

-- The checksum of the header behind the destination and of the payload.
abbrev pub checksum : List ℕ → ℕ
checksum buf = crc16 (span buf i_src (9 + get_or buf i_len 0))

-- The buffer with random byte and checksum.
abbrev pub sealed : Option ℕ → List ℕ → List ℕ
sealed rand buf =
    let b = randomised rand buf in splice b (i_data + get_or buf i_len 0) (bytes16 (checksum b))

module _ (rand : Option ℕ) (buf : List ℕ) (whole : length buf ≡ max_packet_len) where
  pub length-randomised : length (randomised rand buf) ≡ max_packet_len
  length-randomised = elim rand as (λ r. length (randomised r buf) ≡ max_packet_len) [
    | none ↦ whole
    | some r ↦ length-splice buf i_rnd (r ∷ []) (omega arith) ∙ whole
  ]

  -- The random byte is the only one that changes.
  pub get_or-randomised : (i : ℕ) → i ≢ i_rnd → get_or (randomised rand buf) i 0 ≡ get_or buf i 0
  get_or-randomised i ne = elim rand as (λ r. get_or (randomised r buf) i 0 ≡ get_or buf i 0) [
    | none ↦ refl
    | some r ↦ rw (get_or-splice buf i_rnd (r ∷ []) i (omega arith)) (ground arith)
  ]

  rand_byte-ok : (w : Rf) → rand_byte rand buf w ≡ ok (randomised rand buf) w
  unfolding rand_byte
  rand_byte-ok w = elim rand as (λ r. rand_byte r buf w ≡ ok (randomised r buf) w) [
    | none ↦ refl
    | some r ↦ patch-ok buf i_rnd (r ∷ []) w (omega arith)
  ]

  pub same_len : get_or (randomised rand buf) i_len 0 ≡ get_or buf i_len 0
  same_len = get_or-randomised i_len (omega arith)

  -- With room for the checksum, `seal` ends well and leaves the state alone.
  pub seal-sealed : (w : Rf) → get_or buf i_len 0 ≤ 241 → seal rand buf w ≡ ok (sealed rand buf) w
  unfolding seal
  seal-sealed w fits =
      let short : u8 (9 + get_or buf i_len 0) ≡ 9 + get_or buf i_len 0 = omega arith in
      rw (
        rand_byte-ok w,
        same_len,
        short,
        slice-ok (randomised rand buf) i_src (9 + get_or buf i_len 0) w
            (omega (arith, length-randomised)),
        patch-ok (randomised rand buf) (i_data + get_or buf i_len 0)
            (bytes16 (crc16 (span (randomised rand buf) i_src (9 + get_or buf i_len 0)))) w
            (omega (arith, length-randomised)),
      )

  -- Without it, the checksum is written behind the end of the array.
  pub seal-fault : (w : Rf) → 241 < get_or buf i_len 0 → seal rand buf w ≡ fault
  unfolding seal
  seal-fault w over =
      let b = randomised rand buf in
      let n = u8 (9 + get_or buf i_len 0) in
      elim (Bool-cases (ltb (length b) (i_src + n))) [
        | inl outside ↦ rw (rand_byte-ok w, same_len, slice-fault b i_src n w (ltb→lt _ _ outside))
        | inr inside ↦ rw (
          rand_byte-ok w,
          same_len,
          slice-ok b i_src n w (ground arith),
          patch-fault b (i_data + get_or buf i_len 0) (bytes16 (crc16 (span b i_src n))) w
              (omega (arith, length-randomised)),
        )
      ]

  module _ (fits : get_or buf i_len 0 ≤ 241) where
    abbrev here : ℕ
    here = i_data + get_or buf i_len 0

    room : here + 2 ≤ length (randomised rand buf)
    room = omega (arith, length-randomised)

    pub length-sealed : length (sealed rand buf) ≡ max_packet_len
    length-sealed =
        length-splice (randomised rand buf) here (bytes16 (checksum (randomised rand buf))) room
        ∙ length-randomised

    -- The checksum changes nothing in front of it.
    pub get_or-sealed :
        (i : ℕ) → i < here → get_or (sealed rand buf) i 0 ≡ get_or (randomised rand buf) i 0
    get_or-sealed i before =
        get_or-splice (randomised rand buf) here (bytes16 (checksum (randomised rand buf))) i room
        ∙ ground arith

    -- The two bytes behind the payload are the checksum, the low one first.
    pub sealed-low : get_or (sealed rand buf) here 0 ≡ checksum (randomised rand buf) % 256
    sealed-low =
        let bytes = bytes16 (checksum (randomised rand buf)) in
        let first : here - here ≡ 0 = omega arith in
        get_or-splice (randomised rand buf) here bytes here room ∙ rw first (ground arith)

    pub sealed-high :
        get_or (sealed rand buf) (here + 1) 0 ≡ checksum (randomised rand buf) / 256 % 256
    sealed-high =
        let bytes = bytes16 (checksum (randomised rand buf)) in
        let second : here + 1 - here ≡ 1 = omega arith in
        get_or-splice (randomised rand buf) here bytes (here + 1) room ∙ rw second (ground arith)
