-- ===== src/Ws/Handshake/FirstLine.antt =====
-- What the handshake of ws.c makes of a request, by its first line.
use rf_gateway.Base.{
  ℕ, ◌+◌, ◌≤◌, ◌<◌, ◌≡◌, refl, ap, ◌∙◌, Bool, true, false, not, ◌&&◌, Bool-cases, inl, inr, some,
  List, [], ◌∷◌, ◌++◌, arith, ◌==◌, if◌then◌else◌, append_assoc, length, length-append, drop,
  length-drop, drop-drop, take_of_length-le, set, patch-append, string_at, c_string, has_text,
  codes, Run, ok, fault, Ends, ended, faulted, Ends-bind,
}
use rf_gateway.Ws.{Client, ws_buffer_size}
use rf_gateway.Ws.Handshake.{Digest, line_end, next_line, handshake}
use rf_gateway.Ws.Handshake.Refused.{headers-Ends, answer-faulted}

-- A line of a text: neither a line feed nor a zero is in it.
abbrev pub is_line : List ℕ → Bool
is_line [] = true
is_line (c ∷ cs) = not (c == 10) && (not (c == 0) && is_line cs)

line_end-is_line :
    (line after : List ℕ)
    → is_line line ≡ true
    → line_end (line ++ 10 ∷ after) ≡ some (length line, true)
unfolding line_end
line_end-is_line [] after plain = refl
line_end-is_line (c ∷ cs) after plain = ground (arith, line_end-is_line cs after)

set-append :
    (before after : List ℕ) (c d : ℕ)
    → set (before ++ c ∷ after) (length before) d ≡ before ++ d ∷ after
set-append [] after c d = refl
set-append (b ∷ bs) after c d = ap (λ l. b ∷ l) (set-append bs after c d)

c_string-is_line :
    (line after : List ℕ) → is_line line ≡ true → c_string (line ++ 0 ∷ after) ≡ some line
unfolding c_string
c_string-is_line [] after plain = refl
c_string-is_line (c ∷ cs) after plain = ground (arith, c_string-is_line cs after)

never-fault : {S A : Type 0} {r : Run S A} → Ends (λ a s. ⊥) r → r ≡ fault
never-fault (ended p) = absurd p
never-fault faulted = refl

next_line-is_line :
    (line after : List ℕ) (c : Client)
    → is_line line ≡ true
    → next_line (line ++ 10 ∷ after) (some 0) c
      ≡ ok (line ++ 0 ∷ after, 0, some (0 + length line + 1)) c
unfolding next_line
next_line-is_line line after c plain =
    let start : 0 + length line ≡ length line = omega arith in
    rw (line_end-is_line line after plain) (
      ap (λ n. ok (set (line ++ 10 ∷ after) n 0, 0, some (0 + length line + 1)) c) start
      ∙ ap (λ buf. ok (buf, 0, some (0 + length line + 1)) c) (set-append line after 10 0))

string_at-is_line :
    (line after : List ℕ) (c : Client)
    → is_line line ≡ true
    → string_at (line ++ 0 ∷ after) 0 c ≡ ok line c
unfolding string_at
string_at-is_line line after c plain = rw (c_string-is_line line after plain) refl

module _ (line more : List ℕ) where
  abbrev pub request_of : List ℕ
  request_of = line ++ 10 ∷ more

  -- The buffer behind the first `strsep`: the request with a zero behind its first line and one
  -- behind its end, and then the bytes from before.
  abbrev pub cut_line : List ℕ → List ℕ
  cut_line buf = line ++ 0 ∷ (more ++ 0 ∷ drop (length request_of + 1) buf)

  -- A request whose first line ends in a line feed, that fits into the buffer with a byte to spare:
  -- with GET in that line the handshake leaves what C defines, whatever the arrays hold, how long
  -- they are, and what the other lines are; without GET it ends well, the connection does not go on
  -- to frames, and nothing has changed but the buffer.
  pub handshake-has_text :
      (d : Digest) (key_in key_out key_base : List ℕ) (c : Client)
      → is_line line ≡ true
      → length request_of ≤ ws_buffer_size
      → length request_of < length c.buffer
      → handshake d key_in key_out key_base request_of c ≡ (
          if has_text line (codes "GET")
          then fault
          else ok false (record c { buffer = cut_line c.buffer }))
  unfolding handshake
  handshake-has_text d key_in key_out key_base c plain short fits =
      let whole = take_of_length-le ws_buffer_size request_of short in
      let rest = drop (length request_of) c.buffer in
      let ends : 1 ≤ length rest = omega (arith, length-drop (length request_of) c.buffer) in
      let after = more ++ 0 ∷ drop (length request_of + 1) c.buffer in
      let shape : (request_of ++ 0 ∷ []) ++ drop 1 rest ≡ line ++ 10 ∷ after =
        append_assoc request_of (0 ∷ []) (drop 1 rest)
        ∙ ap (λ l. request_of ++ 0 ∷ l) (drop-drop (length request_of) 1 c.buffer)
        ∙ append_assoc line (10 ∷ more) (0 ∷ drop (length request_of + 1) c.buffer) in
      let cut : Client = record c { buffer = line ++ 10 ∷ after } in
      let split : Client = record c { buffer = line ++ 0 ∷ after } in
      rw
        (
          whole,
          patch-append [] c.buffer request_of c (omega arith),
          patch-append request_of rest (0 ∷ []) c ends,
          shape,
          next_line-is_line line after cut plain,
          string_at-is_line line after split plain,
        )
        (elim (Bool-cases (has_text line (codes "GET"))) [
          | inl get ↦ rw get (
              never-fault (
                Ends-bind
                  (headers-Ends (length (line ++ 10 ∷ after) + 1) (line ++ 0 ∷ after)
                    (some (0 + length line + 1)) key_in split
                    (
                      omega arith,
                      omega (arith, length-append line (0 ∷ after)),
                      omega
                          (arith, length-append line (0 ∷ after), length-append line (10 ∷ after)),
                    ))
                  λ (buf, tmp, key) c' (same, inner).
                    Ends-bind (answer-faulted d key_out key_base buf tmp key c' inner)
                      λ _ c'' never. absurd never))
          | inr other ↦ rw other refl
        ])
