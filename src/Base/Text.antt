-- ===== src/Base/Text.antt =====
-- Text as bytes, and the C strings that lie in an array up to their zero byte.
use Prim.Native.Char.{code}
use Prim.Native.Nat.{ℕ}
use Prim.Native.String.{String}
use mathlib.Core.Bool.{Bool, true, false, ◌&&◌, ◌||◌}
use mathlib.Core.Option.{Option, none, some}
use mathlib.Core.List.{List, [], ◌∷◌, ◌++◌}
use rf_gateway.Base.Tests.{◌==◌, if◌then◌else◌}
use rf_gateway.Base.Lists.{length, drop}
use rf_gateway.Base.Buffer.{patch}
use rf_gateway.Base.Command.{fault, Cmd, pure, ◌>>=◌}

abbrev pub codes : String → List ℕ
codes String.[] = []
codes (String.◌∷◌ c s) = code c ∷ codes s

abbrev consed : ℕ → Option (List ℕ) → Option (List ℕ)
consed c none = none
consed c (some s) = some (c ∷ s)

-- The bytes before the first zero; `none` where there is no zero.
unfoldable pub c_string : List ℕ → Option (List ℕ)
c_string [] = none
c_string (c ∷ cs) = if c == 0 then some [] else consed c (c_string cs)

-- `needle` stands at the start of `hay`.
unfoldable pub starts_with : (hay needle : List ℕ) → Bool
starts_with hay [] = true
starts_with [] (c ∷ cs) = false
starts_with (d ∷ ds) (c ∷ cs) = d == c && starts_with ds cs

-- `strstr(hay, needle) != NULL`
unfoldable pub has_text : (hay needle : List ℕ) → Bool
unfolding starts_with
has_text [] needle = starts_with [] needle
has_text (c ∷ cs) needle = starts_with (c ∷ cs) needle || has_text cs needle

module _ {S : Type 0} where
  found : Option (List ℕ) → Cmd S (List ℕ)
  found none = λ _. fault
  found (some s) = pure s

  -- The string at `buf + off`; a string that has no end in its array is read past it.
  unfoldable pub string_at : List ℕ → (off : ℕ) → Cmd S (List ℕ)
  unfolding c_string found
  string_at buf off = found (c_string (drop off buf))

  -- `strcpy(buf + off, text)`
  unfoldable pub put_string : List ℕ → (off : ℕ) → (text : List ℕ) → Cmd S (List ℕ)
  put_string buf off text = patch buf off (text ++ 0 ∷ [])

  -- `strcat(buf, text)` for a text that is not in `buf`.
  unfoldable pub add_string : List ℕ → (text : List ℕ) → Cmd S (List ℕ)
  unfolding string_at put_string
  add_string buf text = do s ← string_at buf 0; put_string buf (length s) text
