-- ===== src/Rf/Frame.antt =====
-- A frame of rf.c on its way: what `transmit` puts on the air, and what a receiver makes of it.
use rf_gateway.Base.{
  ℕ, ◌+◌, ◌-◌, ◌<◌, ◌≡◌, refl, true, List, arith, ltb, if◌then◌else◌, Bool-cases, inl, inr, ok,
  length, get_or, splice, span, patch-ok, slice-ok, length-splice, length-span, get_or-splice,
  get_or-span, get_or_ext, ltb→lt, ◌∙◌,
}
use rf_gateway.Crypto.{Evp}
use rf_gateway.Crypto.Laws.{CbcBlock, encrypt_packet-block, decrypt_packet-block}
use rf_gateway.Rf.{
  Rf, Device, i_ctrl, i_ctr, max_packet_len, is_secret, key_owner, put_coded, protect,
}
use rf_gateway.Rf.Receive.{unprotect}

-- The buffer with the block from the counter on replaced, if the control byte asks.
abbrev pub on_air : (List ℕ → List ℕ) → List ℕ → List ℕ
on_air cipher b = if is_secret b then splice b i_ctr (cipher (span b i_ctr 16)) else b

module _ {evp : Evp} {key iv : List ℕ} (law : CbcBlock evp key iv) (b : List ℕ)
    (whole : length b ≡ max_packet_len) where
  abbrev block : List ℕ
  block = span b i_ctr 16

  length-block : length block ≡ 16
  length-block = length-span b i_ctr 16 (omega arith)

  length-coded : length (law.cipher block) ≡ 16
  length-coded = law.length-cipher block length-block

  pub length-on_air : length (on_air law.cipher b) ≡ max_packet_len
  length-on_air = elim (Bool-cases (is_secret b)) [
    | inl hidden ↦
        rw hidden (length-splice b i_ctr (law.cipher block) (omega (arith, length-coded)) ∙ whole)
    | inr plain ↦ rw plain whole
  ]

  -- `protect` encrypts under the key of its owner.
  pub protect-on_air :
      (d owner : Device) (w : Rf)
      → key_owner d w ≡ ok owner w
      → owner.key ≡ key
      → owner.iv ≡ iv
      → protect evp d b w ≡ ok (on_air law.cipher b) w
  unfolding protect put_coded
  protect-on_air d owner w owned same_key same_iv = elim (Bool-cases (is_secret b)) [
    | inl hidden ↦ rw (
      hidden,
      owned,
      same_key,
      same_iv,
      slice-ok b i_ctr 16 w (omega arith),
      encrypt_packet-block law block length-block,
      patch-ok b i_ctr (law.cipher block) w (omega (arith, length-coded)),
    )
    | inr plain ↦ rw plain
  ]

  -- A receiver's buffer that starts with the frame.
  module _ (got : List ℕ) (room : length got ≡ max_packet_len)
      (carries : (i : ℕ) → i < 25 → get_or got i 0 ≡ get_or (on_air law.cipher b) i 0) where
    get_or-outside : (i : ℕ) → i < i_ctr → get_or (on_air law.cipher b) i 0 ≡ get_or b i 0
    get_or-outside i lt = elim (Bool-cases (is_secret b)) [
      | inl hidden ↦
          rw hidden (
            get_or-splice b i_ctr (law.cipher block) i (omega (arith, length-coded)) ∙ ground arith)
      | inr plain ↦ rw plain refl
    ]

    still_secret : is_secret got ≡ is_secret b
    still_secret = rw (carries i_ctrl (omega arith), get_or-outside i_ctrl (omega arith)) refl

    -- The buffer after decryption.
    abbrev pub opened : List ℕ
    opened = if is_secret b then splice got i_ctr block else got

    pub length-opened : length opened ≡ max_packet_len
    length-opened = elim (Bool-cases (is_secret b)) [
      | inl hidden ↦ rw hidden (length-splice got i_ctr block (omega (arith, length-block)) ∙ room)
      | inr plain ↦ rw plain room
    ]

    coded_byte :
        is_secret b ≡ true
        → (i : ℕ) → i < 16
        → get_or (span got i_ctr 16) i 0 ≡ get_or (law.cipher block) i 0
    coded_byte hidden i lt =
        let at : i_ctr + i - i_ctr ≡ i = omega arith in
        let air : get_or (on_air law.cipher b) (i_ctr + i) 0 ≡ get_or (law.cipher block) i 0 =
          rw hidden (
            get_or-splice b i_ctr (law.cipher block) (i_ctr + i) (omega (arith, length-coded))
            ∙ rw at (ground (arith, length-coded))) in
        get_or-span got i_ctr 16 i ∙ ground (arith, carries (i_ctr + i) (omega arith), air)

    coded_block : is_secret b ≡ true → span got i_ctr 16 ≡ law.cipher block
    coded_block hidden =
        let n : length (span got i_ctr 16) ≡ 16 = length-span got i_ctr 16 (omega arith) in
        get_or_ext 0 (span got i_ctr 16) (law.cipher block) (omega (arith, length-coded))
          λ i lt. coded_byte hidden i (omega arith)

    pub unprotect-opened :
        (r : Device) (w : Rf) → r.key ≡ key → r.iv ≡ iv → unprotect evp r got w ≡ ok opened w
    unfolding unprotect put_coded
    unprotect-opened r w same_key same_iv = elim (Bool-cases (is_secret b)) [
      | inl hidden ↦ rw (
        still_secret,
        hidden,
        same_key,
        same_iv,
        slice-ok got i_ctr 16 w (omega arith),
        coded_block hidden,
        decrypt_packet-block law block length-block,
        patch-ok got i_ctr block w (omega (arith, length-block)),
      )
      | inr plain ↦ rw (still_secret, plain)
    ]

    -- The receiver has the sender's bytes back.
    pub get_or-opened : (i : ℕ) → i < 25 → get_or opened i 0 ≡ get_or b i 0
    get_or-opened i lt = elim (Bool-cases (is_secret b)) [
      | inl hidden ↦
          let back : (if ltb i i_ctr
                then get_or (on_air law.cipher b) i 0
                else get_or b (i_ctr + (i - i_ctr)) 0)
              ≡ get_or b i 0 =
            elim (Bool-cases (ltb i i_ctr)) [
              | inl before ↦ ground (arith, get_or-outside i (ltb→lt _ _ before))
              | inr past ↦ let at : i_ctr + (i - i_ctr) ≡ i = ground arith in rw at (ground arith)
            ] in
          rw hidden (
            get_or-splice got i_ctr block i (omega (arith, length-block))
            ∙ ground (arith, length-block, carries i lt, get_or-span b i_ctr 16 (i - i_ctr), back))
      | inr plain ↦ rw plain (carries i lt ∙ rw plain refl)
    ]
