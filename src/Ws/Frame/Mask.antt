-- ===== src/Ws/Frame/Mask.antt =====
-- The frames that a browser sends, as the protocol lays them out, and how ws.c reads them.
use rf_gateway.Base.{
  ℕ, suc, ◌^◌, ◌+◌, ◌/◌, ◌%◌, ◌≤◌, ◌<◌, ◌≡◌, refl, ap, ◌∙◌, Bool-cases, inl, inr, List, [], ◌∷◌,
  ◌++◌, arith, ltb, if◌then◌else◌, some, map, ok, length, drop, get_or, length-append, append_assoc,
  append-nil, bit_xor, bit_xor_twice, bit_xor_comm, bit_and_three, ◌==◌, true, false, drop-drop,
  slice, patch-append, span, length-drop, take_of_length-le,
}
use rf_gateway.Ws.{ws_buffer_size}
use rf_gateway.Ws.Frame.{unmask, frame_size, fill, recv_at}

-- Byte `i` of a masked payload is byte `i` of the payload with byte `i mod 4` of the mask.
abbrev pub masked_from : (mask : List ℕ) → (i : ℕ) → List ℕ → List ℕ
masked_from mask i [] = []
masked_from mask i (b ∷ bs) = bit_xor (get_or mask (i % 4) 0) b ∷ masked_from mask (i + 1) bs

-- The length of a payload with the mark for a mask: one byte, or a mark and two or eight bytes, the
-- highest first.
abbrev pub size_bytes : ℕ → List ℕ
size_bytes n =
    if ltb n 126
    then (0x80 + n) ∷ []
    else if ltb n 65536
    then 0xfe ∷ n / 256 ∷ n % 256 ∷ []
    else 0xff ∷ 0 ∷ 0 ∷ 0 ∷ 0 ∷ n / 16777216 ∷ n / 65536 % 256 ∷ n / 256 % 256 ∷ n % 256 ∷ []

-- A frame of a browser, up to the mask, and whole.
abbrev pub frame_head : (first : ℕ) → List ℕ → List ℕ
frame_head first text = first ∷ size_bytes (length text)

abbrev pub browser_frame : (first : ℕ) → (mask text : List ℕ) → List ℕ
browser_frame first mask text = frame_head first text ++ (mask ++ masked_from mask 0 text)

pub length-masked_from :
    (mask : List ℕ) (i : ℕ) (text : List ℕ) → length (masked_from mask i text) ≡ length text
length-masked_from mask i [] = refl
length-masked_from mask i (b ∷ bs) = ap suc (length-masked_from mask (i + 1) bs)

-- The loop of ws.c undoes the mask.
pub unmask-masked_from :
    (mask : List ℕ) (i : ℕ) (text : List ℕ) → unmask mask i (masked_from mask i text) ≡ text
unfolding unmask
unmask-masked_from mask i [] = refl
unmask-masked_from mask i (b ∷ bs) =
    rw
      (
        bit_and_three i,
        bit_xor_comm (get_or mask (i % 4) 0) b,
        bit_xor_twice b (get_or mask (i % 4) 0),
        unmask-masked_from mask (i + 1) bs,
      )
      refl

module _ {S : Type 0} (first : ℕ) (text after : List ℕ) (s : S) where
  -- `wsLen` is the length of the payload, and `keyOffset` where the mask begins.
  pub frame_size-frame_head :
      length text < 2 ^ 32
      → frame_size (frame_head first text ++ after) s
        ≡ ok (length text, length (frame_head first text)) s
  unfolding frame_size slice span
  frame_size-frame_head small = elim (Bool-cases (ltb (length text) 126)) [
    | inl short ↦ rw short (ground arith)
    | inr long ↦ elim (Bool-cases (ltb (length text) 65536)) [
      | inl middle ↦ rw (long, middle) (ground arith)
      | inr large ↦ rw (long, large) (ground arith)
    ]
  ]

abbrev pub joined : List (List ℕ) → List ℕ
joined [] = []
joined (c ∷ cs) = c ++ joined cs

-- Every part has a byte at least, and no more than a call of `recv` can give.
abbrev pub Arrives : List (List ℕ) → Type 0
Arrives [] = Unit {0}
Arrives (c ∷ cs) = (0 < length c) × (length c ≤ ws_buffer_size) × Arrives cs

module _ {S : Type 0} where
  -- However the rest of a frame is cut into parts, the loop ends with all of it in the buffer.
  pub fill-joined :
      (chunks : List (List ℕ)) (done rest : List ℕ) (len target : ℕ) (s : S)
      → Arrives chunks
      → length (joined chunks) ≤ length rest
      → len ≡ length done
      → target ≡ length done + length (joined chunks)
      → fill (map some chunks) (done ++ rest) len target s
        ≡ ok ((done ++ joined chunks) ++ drop (length (joined chunks)) rest) s
  unfolding fill recv_at
  fill-joined [] done rest len target s all fits e e' =
      let here : (len == target) ≡ true = ground arith in rw (here, append-nil) refl
  fill-joined (c ∷ cs) done rest len target s (some_byte, few, all) fits e e' =
      let sum = length-append c (joined cs) in
      let away : (len == target) ≡ false = ground arith in
      rw (away, take_of_length-le ws_buffer_size c few, e, patch-append done rest c s (omega arith))
        (fill-joined cs (done ++ c) (drop (length c) rest) (length done + length c) target s all
            (omega (arith, length-drop (length c) rest)) (omega (arith, length-append done c))
            (omega (arith, length-append done c))
          ∙ rw
              (
                append_assoc done c (joined cs),
                drop-drop (length c) (length (joined cs)) rest,
                ← sum,
              )
              refl)
