-- ===== src/Ws/Frame/Carried.antt =====
-- A round of the loop over the frames that meets a data frame of a browser, up to its text.
use rf_gateway.Base.{
  ℕ, ◌+◌, ◌≤◌, ◌<◌, ◌≡◌, ◌≢◌, refl, ap, append_assoc, true, Option, some, List, [], ◌∷◌, ◌++◌,
  arith, ltb, if◌then◌else◌, map, ok, length, drop, bit_and, length-append, length-drop,
  ne→==-false, patch-append, slice, take_of_length-le, span, ◌>>◌, pure, Bool-cases, inl, inr,
}
use rf_gateway.Crypto.{Evp}
use rf_gateway.Ws.{Client, ws_buffer_size}
use rf_gateway.Ws.Frame.{Arrival, take_base, frame_round, one_frame, data_frame}
use rf_gateway.Ws.Frame.Mask.{
  browser_frame, frame_head, masked_from, length-masked_from, joined, Arrives,
}
use rf_gateway.Ws.Frame.Handled.{data_frame-take_base}

-- The first two bytes of a frame.
abbrev second : List ℕ → ℕ
second text =
    if ltb (length text) 126
    then 0x80 + length text
    else if ltb (length text) 65536
    then 0xfe
    else 0xff

two-frame_head :
    {S : Type 0} (first : ℕ) (text after : List ℕ) (s : S)
    → slice (frame_head first text ++ after) 0 2 s ≡ ok (first ∷ second text ∷ []) s
unfolding slice span
two-frame_head first text after s = elim (Bool-cases (ltb (length text) 126)) [
  | inl short ↦ rw short (ground arith)
  | inr long ↦ elim (Bool-cases (ltb (length text) 65536)) [
    | inl middle ↦ rw (long, middle) (ground arith)
    | inr large ↦ rw (long, large) (ground arith)
  ]
]

masked-second : (text : List ℕ) → 0 < length text → ltb 0x80 (second text) ≡ true
masked-second text some_byte = ground arith

-- Up to the data of a frame.
frame_round-data_frame :
    (evp : Evp) (decode : List ℕ → Option (List ℕ)) (sockfd : ℕ) (a : Arrival) (c : Client)
    (got : List ℕ) (first byte : ℕ)
    → a.first ≡ some got
    → length got ≤ ws_buffer_size
    → 0 < length got
    → length got ≤ length c.buffer
    → ((s : Client) → slice (got ++ drop (length got) c.buffer) 0 2 s ≡ ok (first ∷ byte ∷ []) s)
    → bit_and first 0x0f ≢ 0x08
    → bit_and first 0x0f ≢ 0x09
    → ltb 0x80 byte ≡ true
    → frame_round evp decode sockfd a c
      ≡ (data_frame evp decode a sockfd (length got) >> pure true)
          (record c { buffer = got ++ drop (length got) c.buffer })
unfolding frame_round one_frame
frame_round-data_frame evp decode sockfd a c got first byte arrived few some_byte fits two not_close
      not_ping masked =
    let c' : Client = record c { buffer = got ++ drop (length got) c.buffer } in
    rw
      (
        arrived,
        take_of_length-le ws_buffer_size got few,
        ne→==-false (length got) 0 (omega arith),
        patch-append [] c.buffer got c fits,
        two c',
        ne→==-false (bit_and first 0x0f) 0x08 not_close,
        ne→==-false (bit_and first 0x0f) 0x09 not_ping,
        masked,
      )
      refl

-- What the buffer keeps behind the parts of a frame.
abbrev pub left_over : (first : ℕ) (text x : List ℕ) → List (List ℕ) → Client → List ℕ
left_over first text x chunks c =
    drop (length (joined chunks)) (drop (length (frame_head first text ++ x)) c.buffer)

module _ (first : ℕ) (mask text x : List ℕ) (chunks : List (List ℕ)) (c : Client)
    (four : length mask ≡ 4) (cut : x ++ joined chunks ≡ mask ++ masked_from mask 0 text)
    (fits : length (browser_frame first mask text) ≤ length c.buffer) where
  lengths :
      length (frame_head first text ++ x) + length (joined chunks)
      ≡ length (browser_frame first mask text)
  lengths = omega (
    arith,
    ap length cut,
    length-append (frame_head first text) x,
    length-append x (joined chunks),
    length-append (frame_head first text) (mask ++ masked_from mask 0 text),
  )

  pub length-left_over :
      length (browser_frame first mask text ++ left_over first text x chunks c) ≡ length c.buffer
  length-left_over = omega (
    arith,
    lengths,
    length-append (browser_frame first mask text) (left_over first text x chunks c),
    length-drop (length (joined chunks)) (drop (length (frame_head first text ++ x)) c.buffer),
    length-drop (length (frame_head first text ++ x)) c.buffer,
  )

  text_lt : length text < length (browser_frame first mask text)
  text_lt = omega (
    arith,
    length-masked_from mask 0 text,
    length-append mask (masked_from mask 0 text),
    length-append (frame_head first text) (mask ++ masked_from mask 0 text),
  )

module _ (evp : Evp) (decode : List ℕ → Option (List ℕ)) (sockfd : ℕ) (a : Arrival) (first : ℕ)
    (mask text x : List ℕ) (chunks : List (List ℕ)) (c : Client) (four : length mask ≡ 4)
    (arrived : a.first ≡ some (frame_head first text ++ x)) (chunked : a.chunks ≡ map some chunks)
    (cut : x ++ joined chunks ≡ mask ++ masked_from mask 0 text)
    (parts : Arrives ((frame_head first text ++ x) ∷ chunks))
    (short : length text < 126 → chunks ≡ [])
    (fits : length (browser_frame first mask text) ≤ length c.buffer)
    (small : length c.buffer ≤ ws_buffer_size) where
  -- The whole frame gets into the buffer, and its text to `take_base`.
  pub frame_round-take_base :
      bit_and first 0x0f ≢ 0x08
      → bit_and first 0x0f ≢ 0x09
      → a.data_room ≡ true
      → a.base_room ≡ true
      → 0 < length text
      → frame_round evp decode sockfd a c
        ≡ (take_base evp a sockfd text (decode text) >> pure true)
            (record c { buffer = browser_frame first mask text ++ left_over first text x chunks c })
  frame_round-take_base not_close not_ping data_room base_room some_text =
      let (some_byte, few, all) = parts in
      let got_all = frame_head first text ++ x in
      let rest = drop (length got_all) c.buffer in
      let c' : Client = record c { buffer = got_all ++ rest } in
      let left : length (joined chunks) ≤ length rest = omega (
        arith,
        lengths first mask text x chunks c four cut fits,
        length-drop (length got_all) c.buffer,
      ) in
      let begins =
        frame_round-data_frame evp decode sockfd a c got_all first (second text) arrived few
          some_byte (omega (arith, lengths first mask text x chunks c four cut fits))
          (λ s.
            rw (append_assoc (frame_head first text) x rest)
              (two-frame_head first text (x ++ rest) s))
          not_close not_ping (masked-second text some_text) in
      let carries =
        data_frame-take_base first mask text four
          (omega (arith, text_lt first mask text x chunks c four cut fits)) x rest chunks cut all
          short left evp decode a sockfd c' chunked data_room base_room refl in
      rw (begins, carries) refl
