-- ===== src/Ws/Frame/Handled.antt =====
-- A data frame of a browser, from its bytes to the answer.
use rf_gateway.Base.{
  ℕ, ◌+◌, ◌-◌, ◌^◌, ◌≤◌, ◌<◌, ◌≡◌, refl, ap, ◌∙◌, sym, Bool-cases, inl, inr, true, false, Option,
  List, [], ◌∷◌, ◌++◌, arith, leb, some, map, ok, length, drop, u32, length-append, append_assoc,
  append-nil, bit_and, bit_and_255, patch, slice, slice-middle, patch-append, length-drop,
}
use rf_gateway.Ws.{Client}
use rf_gateway.Ws.Frame.{Arrival, frame_size, reply, data_frame, rest_of_frame, take_base}
use rf_gateway.Ws.Frame.Mask.{
  browser_frame, frame_head, masked_from, length-masked_from, unmask-masked_from,
  frame_size-frame_head, joined, Arrives, fill-joined,
}
use rf_gateway.Crypto.{Evp}

-- The frame around a response of the server.
abbrev pub server_frame : (response : List ℕ) → List ℕ
server_frame response = 0x81 ∷ length response ∷ response

-- A buffer with the frame of a response at its start.
abbrev pub answered : (response buf : List ℕ) → List ℕ
answered response buf = server_frame response ++ drop (length response) (drop 2 buf)

pub reply-server_frame :
    (response : List ℕ) (c : Client)
    → length response < 126
    → length response + 2 ≤ length c.buffer
    → reply response c
      ≡ ok tt (record c {
        buffer = answered response c.buffer;
        written = c.written ++ server_frame response ∷ [];
      })
unfolding reply
reply-server_frame response c short fits =
    let n = length response in
    let rest = drop n (drop 2 c.buffer) in
    let small : leb 126 n ≡ false = ground arith in
    let byte : bit_and n 0xff ≡ n = omega (arith, bit_and_255 n) in
    let head : patch c.buffer 0 (0x81 ∷ n ∷ []) c ≡ ok (0x81 ∷ n ∷ drop 2 c.buffer) c =
      patch-append [] c.buffer (0x81 ∷ n ∷ []) c (omega arith) in
    let body : patch (0x81 ∷ n ∷ drop 2 c.buffer) 2 response c
        ≡ ok (server_frame response ++ rest) c =
      patch-append (0x81 ∷ n ∷ []) (drop 2 c.buffer) response c
        (omega (arith, length-drop 2 c.buffer)) in
    let size : n + 2 ≡ length (server_frame response) = omega arith in
    rw (small, byte, head, body, size, slice-middle [] (server_frame response) rest) refl

payload-middle :
    {S : Type 0} (head mask masked tail : List ℕ) (n : ℕ) (s : S)
    → length mask ≡ 4
    → n ≡ length masked
    → slice ((head ++ (mask ++ masked)) ++ tail) (length head + 4) n s ≡ ok masked s
payload-middle head mask masked tail n s four size =
    let at : length head + 4 ≡ length (head ++ mask) = omega (arith, length-append head mask) in
    rw (← append_assoc head mask masked, append_assoc (head ++ mask) masked tail, at, size)
      (slice-middle (head ++ mask) masked tail s)

module _ (first : ℕ) (mask text : List ℕ) (four : length mask ≡ 4)
    (small : length text < 2 ^ 32 - 14) where
  abbrev head : List ℕ
  head = frame_head first text

  head_length : length (frame_head first text) ≤ 10
  head_length = ground arith

  module _ {S : Type 0} (tail : List ℕ) (s : S) where
    -- What the two reads behind the header give.
    mask-browser_frame :
        slice (browser_frame first mask text ++ tail) (length (frame_head first text)) 4 s
        ≡ ok mask s
    mask-browser_frame =
        let masked = masked_from mask 0 text in
        rw (append_assoc head (mask ++ masked) tail, append_assoc mask masked tail, ← four)
          (slice-middle head mask (masked ++ tail) s)

    payload-browser_frame :
        slice
          (browser_frame first mask text ++ tail)
          (length (frame_head first text) + 4)
          (length text)
          s
        ≡ ok (masked_from mask 0 text) s
    payload-browser_frame =
        payload-middle (frame_head first text) mask (masked_from mask 0 text) tail (length text) s
          four (sym (length-masked_from mask 0 text))

  module _ (x rest : List ℕ) (chunks : List (List ℕ))
      (cut : x ++ joined chunks ≡ mask ++ masked_from mask 0 text) (all : Arrives chunks)
      (short : length text < 126 → chunks ≡ []) (fits : length (joined chunks) ≤ length rest) where
    abbrev whole : List ℕ
    whole = browser_frame first mask text ++ drop (length (joined chunks)) rest

    parts : (head ++ x) ++ joined chunks ≡ browser_frame first mask text
    parts = append_assoc head x (joined chunks) ∙ ap (λ l. head ++ l) cut

    length-parts :
        length (head ++ x) + length (joined chunks)
        ≡ length text + length (frame_head first text) + 4
    length-parts = omega (
      arith,
      ap length cut,
      length-append x (joined chunks),
      length-append mask (masked_from mask 0 text),
      length-masked_from mask 0 text,
      length-append head x,
    )

    rest_of_frame-whole :
        {S : Type 0} (s : S)
        → rest_of_frame
            (map some chunks)
            ((head ++ x) ++ rest)
            (length (head ++ x))
            (length text)
            (length (frame_head first text))
            s
          ≡ ok (browser_frame first mask text ++ drop (length (joined chunks)) rest) s
    unfolding rest_of_frame
    rest_of_frame-whole s = elim (Bool-cases (leb 126 (length text))) [
      | inl long ↦ rw long (
          fill-joined chunks (head ++ x) rest (length (head ++ x))
            (u32 (length text + length (frame_head first text) + 4)) s all fits refl
            (omega (arith, length-parts, head_length))
          ∙ ap (λ l. ok (l ++ drop (length (joined chunks)) rest) s) parts)
      | inr brief ↦
          let none_left : chunks ≡ [] = short (ground arith) in
          let same : head ++ x ≡ browser_frame first mask text =
            sym (append-nil (head ++ x))
            ∙ ap (λ cs. (head ++ x) ++ joined cs) (sym none_left)
            ∙ parts in
          rw (brief, none_left) (ap (λ l. ok (l ++ rest) s) same)
    ]

    module _ {S : Type 0} (buf : List ℕ) (s : S) where
      frame_size-at :
          buf ≡ (head ++ x) ++ rest
          → frame_size buf s ≡ ok (length text, length (frame_head first text)) s
      frame_size-at e =
          rw (e, append_assoc head x rest)
            (frame_size-frame_head first text (x ++ rest) s (omega arith))

    rest_of_frame-at :
        {S : Type 0} (arriving : List (Option (List ℕ))) (buf : List ℕ) (s : S)
        → arriving ≡ map some chunks
        → buf ≡ (head ++ x) ++ rest
        → rest_of_frame arriving buf
            (length (head ++ x))
            (length text)
            (length (frame_head first text))
            s
          ≡ ok (browser_frame first mask text ++ drop (length (joined chunks)) rest) s
    rest_of_frame-at arriving buf s e e' = rw (e, e') (rest_of_frame-whole s)

    module _ (evp : Evp) (decode : List ℕ → Option (List ℕ)) (a : Arrival) (sockfd : ℕ) (c : Client)
        (chunked : a.chunks ≡ map some chunks) (data_room : a.data_room ≡ true)
        (base_room : a.base_room ≡ true) (holds : c.buffer ≡ (head ++ x) ++ rest) where
      pub data_frame-take_base :
          data_frame evp decode a sockfd (length (head ++ x)) c
          ≡ take_base evp a sockfd text (decode text) (record c {
            buffer = browser_frame first mask text ++ drop (length (joined chunks)) rest;
          })
      unfolding data_frame
      data_frame-take_base =
          let sized = frame_size-at c.buffer c holds in
          let filled = rest_of_frame-at a.chunks c.buffer c chunked holds in
          rw
            (
              sized,
              filled,
              mask-browser_frame (drop (length (joined chunks)) rest),
              data_room,
              payload-browser_frame (drop (length (joined chunks)) rest),
              base_room,
              unmask-masked_from mask 0 text,
            )
            refl
