-- ===== src/Ws/Handshake/Refused.antt =====
-- No request gets past the handshake of ws.c: the line that is freed lies inside of the buffer.
use rf_gateway.Base.{
  ℕ, zero, suc, ◌+◌, ◌-◌, ◌≤◌, ◌<◌, ◌≡◌, refl, ◌∙◌, Bool, true, false, Bool-cases, inl, inr, Option,
  none, some, List, [], ◌∷◌, arith, leb, ltb, ◌==◌, Cmd, length, drop, length-set, length-drop,
  patch, slice, string_at, c_string, put_string, add_string, has_text, Ends, ◌++◌, ended, faulted,
  Ends-bind, Option-cases, ne→==-false,
}
use rf_gateway.Ws.{Client}
use rf_gateway.Ws.Handshake.{
  Digest, line_end, longer, next_line, copy_key, take_key, headers, add_inner, free_inner, answer,
  guid, key_header, greeting, blank_line,
}

-- The run ends, well or not.
abbrev pub Quits : {S A : Type 0} → Cmd S A → Type 0
Quits {S} m = (s : S) → Ends (λ a s'. s' ≡ s) (m s)

module _ {S : Type 0} where
  pub patch-Quits : (buf : List ℕ) (off : ℕ) (bytes : List ℕ) → Quits (patch {S = S} buf off bytes)
  unfolding patch
  patch-Quits buf off bytes s = elim (Bool-cases (leb (off + length bytes) (length buf))) [
    | inl fits ↦ rw fits (ended refl)
    | inr over ↦ rw over faulted
  ]

  string_at-Quits : (buf : List ℕ) (off : ℕ) → Quits (string_at {S = S} buf off)
  unfolding string_at
  string_at-Quits buf off s = elim (Option-cases (c_string (drop off buf))) [
    | inl e ↦ rw e faulted
    | inr (text, e) ↦ rw e (ended refl)
  ]

  put_string-Quits :
      (buf : List ℕ) (off : ℕ) (text : List ℕ) → Quits (put_string {S = S} buf off text)
  unfolding put_string
  put_string-Quits buf off text = patch-Quits buf off (text ++ 0 ∷ [])

  add_string-Quits : (buf text : List ℕ) → Quits (add_string {S = S} buf text)
  unfolding add_string
  add_string-Quits buf text s =
      Ends-bind (string_at-Quits buf 0 s) λ a s' e. rw e (put_string-Quits buf (length a) text s)

  copy_key-Quits : (key_in key : List ℕ) → Quits (copy_key {S = S} key_in key)
  unfolding copy_key
  copy_key-Quits key_in key s = Ends-bind (put_string-Quits key_in 0 key s) λ copied s1 e.
      Ends-bind (string_at-Quits copied 0 s1) λ text s2 e'. elim (Bool-cases (length text == 0)) [
        | inl empty ↦ rw empty faulted
        | inr more ↦
            rw (more, e', e)
              (Ends-bind (patch-Quits copied (length text - 1) (0 ∷ []) s)
                λ cut s3 e''. rw e'' (add_string-Quits cut guid s))
      ]

  take_key-Quits :
      (buf : List ℕ) (tmp : ℕ) (key_in : List ℕ) → Quits (take_key {S = S} buf tmp key_in)
  unfolding take_key
  take_key-Quits buf tmp key_in s = Ends-bind (string_at-Quits buf tmp s) λ line s1 e.
      elim (Bool-cases (has_text line key_header)) [
        | inl has ↦
            rw (has, e)
              (Ends-bind (string_at-Quits buf (tmp + 19) s)
                λ key s2 e'. rw e' (copy_key-Quits key_in key s))
        | inr lacks ↦ rw (lacks, e) (ended refl)
      ]

longer-some :
    (o : Option (ℕ × Bool)) (n : ℕ) (more : Bool)
    → longer o ≡ some (n, more)
    → (o ≡ some (n - 1, more)) × (0 < n)
longer-some none n more e = cc
longer-some (some (m, b)) n more e = ground arith

-- A line ends inside of what is searched.
line_end-lt : (l : List ℕ) (n : ℕ) (more : Bool) → line_end l ≡ some (n, more) → n < length l
unfolding line_end
line_end-lt [] n more e = cc
line_end-lt (c ∷ cs) n more e =
    ground (arith, longer-some (line_end cs) n more, line_end-lt cs (n - 1) more)

-- How far the loop over the lines is: `k` rounds are enough, and the next line is not the first.
abbrev pub Bounded : (k len : ℕ) → Option ℕ → Type 0
Bounded k len none = 0 < k
Bounded k len (some from) = (0 < from) × (from ≤ len) × (len < k + from)

module _ {S : Type 0} where
  next_line-Bounded :
      (k : ℕ) (buf : List ℕ) (at : Option ℕ) (s : S)
      → Bounded (suc k) (length buf) at
      → Ends
          (λ (buf', tmp, at') s'.
            (s' ≡ s) × (0 < tmp) × (length buf' ≡ length buf) × Bounded k (length buf) at')
          (next_line buf at s)
  unfolding next_line
  next_line-Bounded k buf none s b = faulted
  next_line-Bounded k buf (some from) s b = elim (Option-cases (line_end (drop from buf))) [
    | inl e ↦ rw e faulted
    | inr ((n, true), e) ↦ rw e (
        ended (
          refl,
          b.0,
          length-set buf (from + n) 0,
          omega (arith, line_end-lt (drop from buf) n true e, length-drop from buf),
        ))
    | inr ((n, false), e) ↦ rw e (
        ended (
          refl,
          b.0,
          refl,
          omega (arith, line_end-lt (drop from buf) n false e, length-drop from buf),
        ))
  ]

  pub headers-Ends :
      (k : ℕ) (buf : List ℕ) (at : Option ℕ) (key_in : List ℕ) (s : S)
      → Bounded k (length buf) at
      → Ends (λ (buf', tmp, key) s'. (s' ≡ s) × (0 < tmp)) (headers k buf at key_in s)
  unfolding headers
  headers-Ends zero buf none key_in s b = absurd (omega arith)
  headers-Ends zero buf (some from) key_in s b = absurd (omega arith)
  headers-Ends (suc k) buf at key_in s b =
      Ends-bind (next_line-Bounded k buf at s b) λ (buf', tmp, at') s1 (e1, pos, same, b').
        Ends-bind (take_key-Quits buf' tmp key_in s1) λ key' s2 e2.
          Ends-bind (string_at-Quits buf' tmp s2) λ line s3 e3.
            elim (Bool-cases (ltb 1 (length line))) [
              | inl more ↦ rw (more, e3, e2, e1) (headers-Ends k buf' at' key' s (rw same b'))
              | inr stop ↦ rw stop (ended (e3 ∙ e2 ∙ e1, pos))
            ]

  slice-Quits : (buf : List ℕ) (off n : ℕ) → Quits (slice {S = S} buf off n)
  unfolding slice
  slice-Quits buf off n s = elim (Bool-cases (leb (off + n) (length buf))) [
    | inl fits ↦ rw fits (ended refl)
    | inr over ↦ rw over faulted
  ]

  add_inner-Quits : (buf : List ℕ) (tmp : ℕ) → Quits (add_inner {S = S} buf tmp)
  unfolding add_inner
  add_inner-Quits buf tmp s = Ends-bind (string_at-Quits buf 0 s) λ text s1 e.
      Ends-bind (string_at-Quits buf tmp s1) λ line s2 e'.
        elim (Bool-cases (ltb (length text + length line) tmp)) [
          | inl apart ↦ rw (apart, e', e) (put_string-Quits buf (length text) line s)
          | inr meets ↦ rw meets faulted
        ]

module _ (d : Digest) where
  -- The line to be freed is not the start of the buffer.
  pub answer-faulted :
      (key_out key_base buf : List ℕ) (tmp : ℕ) (key_in : List ℕ) (c : Client)
      → 0 < tmp
      → Ends (λ _ c'. ⊥) (answer d key_out key_base buf tmp key_in c)
  unfolding answer free_inner
  answer-faulted key_out key_base buf tmp key_in c pos =
      Ends-bind (string_at-Quits key_in 0 c) λ key c1 _.
        Ends-bind (patch-Quits key_out 0 (d.sha1 key) c1) λ hashed c2 _.
          Ends-bind (put_string-Quits buf 0 greeting c2) λ started c3 _.
            let c4 : Client = record c3 { buffer = started } in
            Ends-bind (slice-Quits hashed 0 20 c4) λ digest c5 _.
              Ends-bind (patch-Quits key_base 0 (d.encode_block digest ++ 0 ∷ []) c5) λ _ c6 _.
                Ends-bind (add_inner-Quits started tmp c6) λ linked c7 _.
                  Ends-bind (add_string-Quits linked blank_line c7) λ finished c8 _.
                    Ends-bind (string_at-Quits finished 0 (record c8 { buffer = finished }))
                      λ text c9 _. rw (ne→==-false tmp 0 (omega arith)) faulted
