-- ===== src/Config/Scan.antt =====
-- `sscanf` with `%u` and `%hu`, as config.c uses it.
use rf_gateway.Base.{
  ℕ, ◌+◌, ◌-◌, ◌*◌, ◌%◌, ◌^◌, Bool, true, false, ◌&&◌, ◌||◌, Option, none, some, List, [], ◌∷◌, leb,
  ◌==◌, if◌then◌else◌,
}

-- `isspace`
abbrev pub is_space : ℕ → Bool
is_space c = c == b' ' || leb 9 c && leb c 13

abbrev pub is_digit : ℕ → Bool
is_digit c = leb b'0' c && leb c b'9'

unfoldable pub skip_space : List ℕ → List ℕ
skip_space [] = []
skip_space (c ∷ cs) = if is_space c then skip_space cs else c ∷ cs

-- The value of the digits at the start of a text, behind those that are read already.
unfoldable pub digits_from : ℕ → List ℕ → ℕ
digits_from n [] = n
digits_from n (c ∷ cs) =
    let more = digits_from (n * 10 + (c - b'0')) cs in if is_digit c then more else n

-- What `strtoul` makes of a number: the largest `unsigned long` where it is too large.
abbrev pub ulong : (negative : Bool) → ℕ → ℕ
ulong negative n =
    if leb (2 ^ 64) n then 2 ^ 64 - 1 else if negative then (2 ^ 64 - n) % 2 ^ 64 else n

unfoldable pub unsigned : (negative : Bool) → List ℕ → Option ℕ
unfolding digits_from
unsigned negative [] = none
unsigned negative (c ∷ cs) =
    if is_digit c then some (ulong negative (digits_from 0 (c ∷ cs))) else none

unfoldable pub signed : List ℕ → Option ℕ
unfolding unsigned
signed [] = none
signed (c ∷ cs) =
    if c == b'-'
    then unsigned true cs
    else if c == b'+'
    then unsigned false cs
    else unsigned false (c ∷ cs)

-- The number that a conversion reads, `none` where it assigns nothing.
unfoldable pub scan : List ℕ → Option ℕ
unfolding signed skip_space
scan text = signed (skip_space text)

-- A variable after the conversion into it.
abbrev pub assigned : (cut : ℕ → ℕ) → (old : ℕ) → Option ℕ → ℕ
assigned cut old none = old
assigned cut old (some n) = cut n
