-- ===== src/Base/Buffer.antt =====
-- Byte arrays of a fixed size, with the reads and writes that stay inside of them.
use Prim.Native.Nat.{ℕ, ◌+◌, ◌-◌, ◌≤◌, ◌<◌, min}
use mathlib.Core.Path.{◌≡◌, refl, sym, ◌∙◌}
use mathlib.Core.Logic.{inl, inr}
use mathlib.Core.List.{List, ◌++◌, append_assoc}
use native.Mathlib.Omega.{arith}
use rf_gateway.Base.Tests.{ltb, leb, Bool-cases, le→leb, lt→leb-false, if◌then◌else◌}
use rf_gateway.Base.Lists.{
  length, get_or, take, drop, length-append, length-take, length-drop, get_or-append, get_or-take,
  get_or-drop, get_or_ext, take-length_append, drop-length_append, drop-drop,
}
use rf_gateway.Base.Command.{ok, fault, Cmd}

-- `buf` with `bytes` written from `off` on.
unfoldable pub splice : List ℕ → ℕ → List ℕ → List ℕ
splice buf off bytes = take off buf ++ (bytes ++ drop (off + length bytes) buf)

-- The `n` bytes of `buf` from `off` on.
unfoldable pub span : List ℕ → ℕ → ℕ → List ℕ
span buf off n = take n (drop off buf)

module _ {S : Type 0} where
  -- `memcpy(buf + off, bytes, length)`
  unfoldable pub patch : List ℕ → ℕ → List ℕ → Cmd S (List ℕ)
  unfolding splice
  patch buf off bytes s =
      if leb (off + length bytes) (length buf) then ok (splice buf off bytes) s else fault

  -- The `n` bytes that a call reads from `buf + off`.
  unfoldable pub slice : List ℕ → ℕ → ℕ → Cmd S (List ℕ)
  unfolding span
  slice buf off n s = if leb (off + n) (length buf) then ok (span buf off n) s else fault

  pub patch-ok :
      (buf : List ℕ) (off : ℕ) (bytes : List ℕ) (s : S)
      → off + length bytes ≤ length buf
      → patch buf off bytes s ≡ ok (splice buf off bytes) s
  unfolding patch
  patch-ok buf off bytes s fits = rw (le→leb _ _ fits)

  pub patch-fault :
      (buf : List ℕ) (off : ℕ) (bytes : List ℕ) (s : S)
      → length buf < off + length bytes
      → patch buf off bytes s ≡ fault
  unfolding patch
  patch-fault buf off bytes s over = rw (lt→leb-false _ _ over)

  pub slice-ok :
      (buf : List ℕ) (off n : ℕ) (s : S)
      → off + n ≤ length buf
      → slice buf off n s ≡ ok (span buf off n) s
  unfolding slice
  slice-ok buf off n s fits = rw (le→leb _ _ fits)

  pub slice-fault :
      (buf : List ℕ) (off n : ℕ) (s : S) → length buf < off + n → slice buf off n s ≡ fault
  unfolding slice
  slice-fault buf off n s over = rw (lt→leb-false _ _ over)

pub length-splice :
    (buf : List ℕ) (off : ℕ) (bytes : List ℕ)
    → off + length bytes ≤ length buf
    → length (splice buf off bytes) ≡ length buf
unfolding splice
length-splice buf off bytes fits =
    rw
      (
        splice,
        length-append (take off buf) (bytes ++ drop (off + length bytes) buf),
        length-append bytes (drop (off + length bytes) buf),
        length-take off buf,
        length-drop (off + length bytes) buf,
      )
      (omega arith)

pub length-span : (buf : List ℕ) (off n : ℕ) → off + n ≤ length buf → length (span buf off n) ≡ n
unfolding span
length-span buf off n fits = omega (arith, length-take n (drop off buf), length-drop off buf)

pub get_or-splice :
    (buf : List ℕ) (off : ℕ) (bytes : List ℕ) (i : ℕ)
    → off + length bytes ≤ length buf
    → get_or (splice buf off bytes) i 0 ≡ (
        if ltb i off
        then get_or buf i 0
        else if ltb i (off + length bytes)
        then get_or bytes (i - off) 0
        else get_or buf i 0)
unfolding splice
get_or-splice buf off bytes i fits =
    let whole : min off (length buf) ≡ off = omega arith in
    rw
      (
        splice,
        get_or-append (take off buf) (bytes ++ drop (off + length bytes) buf) i 0,
        length-take off buf,
        whole,
        get_or-append bytes (drop (off + length bytes) buf) (i - off) 0,
        get_or-take off buf i 0,
        get_or-drop (off + length bytes) buf (i - off - length bytes) 0,
      )
      (elim (Bool-cases (ltb i (off + length bytes))) [
        | inl before ↦ ground arith
        | inr past ↦
            let at : off + length bytes + (i - off - length bytes) ≡ i = ground arith in
            rw at (ground arith)
      ])

pub get_or-span :
    (buf : List ℕ) (off n i : ℕ)
    → get_or (span buf off n) i 0 ≡ (if ltb i n then get_or buf (off + i) 0 else 0)
unfolding span
get_or-span buf off n i = ground (arith, get_or-take n (drop off buf) i 0, get_or-drop off buf i 0)

-- Two buffers that agree on a range have the same bytes there.
pub span_ext :
    (a b : List ℕ) (off n : ℕ)
    → off + n ≤ length a
    → off + n ≤ length b
    → ((i : ℕ) → off ≤ i → i < off + n → get_or a i 0 ≡ get_or b i 0)
    → span a off n ≡ span b off n
span_ext a b off n fits_a fits_b same =
    get_or_ext 0 (span a off n) (span b off n)
      (omega (arith, length-span a off n fits_a, length-span b off n fits_b))
      λ i lt. ground (
        arith,
        get_or-span a off n i,
        get_or-span b off n i,
        length-span a off n fits_a,
        same (off + i),
      )

-- A buffer whose first part is known: what follows it is written, or read.
pub splice-append :
    (done rest bytes : List ℕ)
    → splice (done ++ rest) (length done) bytes ≡ (done ++ bytes) ++ drop (length bytes) rest
unfolding splice
splice-append done rest bytes =
    rw
      (
        take-length_append done rest,
        ← drop-drop (length done) (length bytes) (done ++ rest),
        drop-length_append done rest,
      )
      (sym (append_assoc done bytes (drop (length bytes) rest)))

pub span-middle :
    (before bytes after : List ℕ)
    → span (before ++ (bytes ++ after)) (length before) (length bytes) ≡ bytes
unfolding span
span-middle before bytes after =
    rw (drop-length_append before (bytes ++ after)) (take-length_append bytes after)

module _ {S : Type 0} where
  pub patch-append :
      (done rest bytes : List ℕ) (s : S)
      → length bytes ≤ length rest
      → patch (done ++ rest) (length done) bytes s
        ≡ ok ((done ++ bytes) ++ drop (length bytes) rest) s
  patch-append done rest bytes s fits =
      patch-ok (done ++ rest) (length done) bytes s (omega (arith, length-append done rest))
      ∙ rw (splice-append done rest bytes) refl

  pub slice-middle :
      (before bytes after : List ℕ) (s : S)
      → slice (before ++ (bytes ++ after)) (length before) (length bytes) s ≡ ok bytes s
  slice-middle before bytes after s =
      slice-ok (before ++ (bytes ++ after)) (length before) (length bytes) s
        (omega (arith, length-append before (bytes ++ after), length-append bytes after))
      ∙ rw (span-middle before bytes after) refl
