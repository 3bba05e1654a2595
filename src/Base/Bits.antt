-- ===== src/Base/Bits.antt =====
-- Laws of the native bit operations at variables, from their lowest digit upwards.
use Prim.Native.Nat.{
  ℕ, zero, suc, ◌+◌, ◌-◌, ◌*◌, ◌/◌, ◌%◌, ◌^◌, ◌≤◌, ◌<◌, min, differ, digits, bitwise, bit_and,
  bit_and-bitwise, bit_xor, bit_xor-bitwise,
}
use mathlib.Core.Path.{◌≡◌, refl, sym, ap, ◌∙◌}
use native.Mathlib.Nat.{le_refl, pow-suc}
use mathlib.Core.Bool.{Bool, true, ◌&&◌}
use native.Mathlib.Omega.{arith}

module _ (z : ℕ → ℕ) (f : ℕ → ℕ → ℕ) where
  -- Rounds beyond the digits of the first number add nothing, one at a time.
  one_more : (n a b : ℕ) → a ≤ n → digits z f (suc n) a b ≡ digits z f n a b
  one_more zero zero b few = refl
  one_more zero (suc a) b few = absurd (omega arith)
  one_more (suc n) zero b few = refl
  one_more (suc n) (suc a) b few =
      ap (λ high. high * 2 + f (suc a % 2) (b % 2)) (one_more n (suc a / 2) (b / 2) (omega arith))

  rounds_more : (k n a b : ℕ) → a ≤ n → digits z f (k + n) a b ≡ digits z f n a b
  rounds_more zero n a b few = let none : 0 + n ≡ n = omega arith in rw none refl
  rounds_more (suc k) n a b few =
      let first : suc k + n ≡ suc (k + n) = omega arith in
      rw first (one_more (k + n) a b (omega arith) ∙ rounds_more k n a b few)

  -- So the high digits of a positive number are the digits of its half.
  digits-half : (a b : ℕ) → digits z f a (suc a / 2) (b / 2) ≡ bitwise z f (suc a / 2) (b / 2)
  digits-half a b =
      let half = suc a / 2 in
      let rounds : (a - half) + half ≡ a = omega arith in
      ap (λ n. digits z f n half (b / 2)) (sym rounds)
      ∙ rounds_more (a - half) half half (b / 2) (omega arith)

pub bit_and_halves : (a b : ℕ) → bit_and a b ≡ min (a % 2) (b % 2) + 2 * bit_and (a / 2) (b / 2)
bit_and_halves zero b = omega (arith, bit_and-bitwise 0 b, bit_and-bitwise 0 (b / 2))
bit_and_halves (suc a) b = omega (
  arith,
  digits-half (λ _. 0) min a b,
  bit_and-bitwise (suc a) b,
  bit_and-bitwise (suc a / 2) (b / 2),
)

-- The exclusive or of two digits, as arithmetic.
abbrev pub odd : ℕ → ℕ → ℕ
odd a b = (a + b) % 2

differ-odd : (a b : ℕ) → a < 2 → b < 2 → differ a b ≡ odd a b
differ-odd zero b p q = omega arith
differ-odd (suc zero) zero p q = refl
differ-odd (suc zero) (suc zero) p q = refl
differ-odd (suc zero) (suc (suc b)) p q = absurd (omega arith)
differ-odd (suc (suc a)) b p q = absurd (omega arith)

pub bit_xor_halves : (a b : ℕ) → bit_xor a b ≡ bit_xor (a / 2) (b / 2) * 2 + odd a b
bit_xor_halves zero b = omega (arith, bit_xor-bitwise 0 b, bit_xor-bitwise 0 (b / 2))
bit_xor_halves (suc a) b = omega (
  arith,
  digits-half (λ y. y) differ a b,
  differ-odd (suc a % 2) (b % 2) (omega arith) (omega arith),
  bit_xor-bitwise (suc a) b,
  bit_xor-bitwise (suc a / 2) (b / 2),
)

-- Each law goes from the halves to the whole, on a bound for the first number.
nothing_below : (n a : ℕ) → a < n → bit_and a 0 ≡ 0
nothing_below zero a under = absurd (omega arith)
nothing_below (suc n) zero under = refl
nothing_below (suc n) (suc a) under =
    omega (arith, nothing_below n (suc a / 2) (omega arith), bit_and_halves (suc a) 0)

-- `j & 3` is the remainder by 4.
pub bit_and_three : (a : ℕ) → bit_and a 3 ≡ a % 4
bit_and_three a = omega (
  arith,
  bit_and_halves a 3,
  bit_and_halves (a / 2) 1,
  nothing_below (a + 1) (a / 2 / 2) (omega arith),
)

bit_and_15 : (a : ℕ) → bit_and a 15 ≡ a % 16
bit_and_15 a =
    omega (arith, bit_and_halves a 15, bit_and_halves (a / 2) 7, bit_and_three (a / 2 / 2))

-- `n & 0xff` is the remainder by 256.
pub bit_and_255 : (a : ℕ) → bit_and a 255 ≡ a % 256
bit_and_255 a = omega (
  arith,
  bit_and_halves a 255,
  bit_and_halves (a / 2) 127,
  bit_and_halves (a / 2 / 2) 63,
  bit_and_halves (a / 2 / 2 / 2) 31,
  bit_and_15 (a / 2 / 2 / 2 / 2),
)

pub zero-bit_xor : (b : ℕ) → bit_xor 0 b ≡ b
zero-bit_xor b = bit_xor-bitwise 0 b

bit_xor_comm_fuel : (n a b : ℕ) → a ≤ n → b ≤ n → bit_xor a b ≡ bit_xor b a
bit_xor_comm_fuel zero zero zero p q = refl
bit_xor_comm_fuel zero (suc a) b p q = absurd (omega arith)
bit_xor_comm_fuel zero zero (suc b) p q = absurd (omega arith)
bit_xor_comm_fuel (suc n) a b p q = omega (
  arith,
  bit_xor_halves a b,
  bit_xor_halves b a,
  bit_xor_comm_fuel n (a / 2) (b / 2) (omega arith) (omega arith),
)

pub bit_xor_comm : (a b : ℕ) → bit_xor a b ≡ bit_xor b a
bit_xor_comm a b = bit_xor_comm_fuel (a + b) a b (omega arith) (omega arith)

bit_xor_assoc_fuel :
    (n a b c : ℕ) → a ≤ n → b ≤ n → c ≤ n → bit_xor (bit_xor a b) c ≡ bit_xor a (bit_xor b c)
bit_xor_assoc_fuel zero a b c p q r =
    let za : a ≡ 0 = omega arith in
    let zb : b ≡ 0 = omega arith in rw (za, zb, zero-bit_xor c) (sym (zero-bit_xor c))
bit_xor_assoc_fuel (suc n) a b c p q r =
    let half_ab : bit_xor a b / 2 ≡ bit_xor (a / 2) (b / 2) = omega (arith, bit_xor_halves a b) in
    let half_bc : bit_xor b c / 2 ≡ bit_xor (b / 2) (c / 2) = omega (arith, bit_xor_halves b c) in
    bit_xor_halves (bit_xor a b) c
    ∙ rw
        (
          half_ab,
          bit_xor_assoc_fuel n (a / 2) (b / 2) (c / 2) (omega arith) (omega arith) (omega arith),
        )
        (rw (← half_bc)
          (omega (arith, bit_xor_halves a (bit_xor b c), bit_xor_halves a b, bit_xor_halves b c)))

pub bit_xor_assoc : (a b c : ℕ) → bit_xor (bit_xor a b) c ≡ bit_xor a (bit_xor b c)
bit_xor_assoc a b c = bit_xor_assoc_fuel (a + b + c) a b c (omega arith) (omega arith) (omega arith)

bit_xor_self_fuel : (n a : ℕ) → a ≤ n → bit_xor a a ≡ 0
bit_xor_self_fuel zero zero h = refl
bit_xor_self_fuel zero (suc a) h = absurd (omega arith)
bit_xor_self_fuel (suc n) a h =
    omega (arith, bit_xor_halves a a, bit_xor_self_fuel n (a / 2) (omega arith))

pub bit_xor_self : (a : ℕ) → bit_xor a a ≡ 0
bit_xor_self a = bit_xor_self_fuel a a (le_refl _)

pub bit_xor-zero : (a : ℕ) → bit_xor a 0 ≡ a
bit_xor-zero a = bit_xor_comm a 0 ∙ zero-bit_xor a

-- A mask is taken off by the same mask.
pub bit_xor_twice : (a m : ℕ) → bit_xor (bit_xor a m) m ≡ a
bit_xor_twice a m = bit_xor_assoc a m m ∙ rw (bit_xor_self m, bit_xor-zero a) refl

-- Four numbers in another order.
pub bit_xor_swap :
    (a b c d : ℕ) → bit_xor (bit_xor a b) (bit_xor c d) ≡ bit_xor (bit_xor a c) (bit_xor b d)
bit_xor_swap a b c d =
    bit_xor_assoc a b (bit_xor c d)
    ∙ ap (bit_xor a) (sym (bit_xor_assoc b c d) ∙ ap (λ t. bit_xor t d) (bit_xor_comm b c))
    ∙ ap (bit_xor a) (bit_xor_assoc c b d)
    ∙ sym (bit_xor_assoc a c (bit_xor b d))

twice_high : (k q : ℕ) → q * 2 ^ suc k ≡ q * 2 ^ k + q * 2 ^ k
twice_high k q = omega (arith, ap (λ p. q * p) (pow-suc 2 k))

-- High and low digits do not mix.
pub bit_xor_fields :
    (k q r s t : ℕ)
    → r < 2 ^ k
    → t < 2 ^ k
    → bit_xor (q * 2 ^ k + r) (s * 2 ^ k + t) ≡ bit_xor q s * 2 ^ k + bit_xor r t
bit_xor_fields zero q r s t fr ft =
    let eq : q * 2 ^ 0 + r ≡ q = omega arith in
    let es : s * 2 ^ 0 + t ≡ s = omega arith in
    let er : r ≡ 0 = omega arith in
    let et : t ≡ 0 = omega arith in
    let none : bit_xor r t ≡ 0 = rw (er, et) refl in
    ap (λ n. bit_xor n (s * 2 ^ 0 + t)) eq ∙ ap (bit_xor q) es ∙ omega (arith, none)
bit_xor_fields (suc k) q r s t fr ft =
    let a = q * 2 ^ suc k + r in
    let b = s * 2 ^ suc k + t in
    let ha : a / 2 ≡ q * 2 ^ k + r / 2 = omega (arith, twice_high k q) in
    let hb : b / 2 ≡ s * 2 ^ k + t / 2 = omega (arith, twice_high k s) in
    let ih =
      bit_xor_fields k q (r / 2) s (t / 2) (omega (arith, pow-suc 2 k))
        (omega (arith, pow-suc 2 k)) in
    bit_xor_halves a b
    ∙ ap (λ n. n * 2 + odd a b)
        (ap (λ n. bit_xor n (b / 2)) ha ∙ ap (bit_xor (q * 2 ^ k + r / 2)) hb ∙ ih)
    ∙ omega (arith, bit_xor_halves r t, twice_high k q, twice_high k s, twice_high k (bit_xor q s))

pub bit_xor-lt : (k a b : ℕ) → a < 2 ^ k → b < 2 ^ k → bit_xor a b < 2 ^ k
bit_xor-lt zero a b fa fb =
    let ea : a ≡ 0 = omega arith in
    let eb : b ≡ 0 = omega arith in
    let none : bit_xor a b ≡ 0 = rw (ea, eb) refl in omega (arith, none)
bit_xor-lt (suc k) a b fa fb = omega (
  arith,
  pow-suc 2 k,
  bit_xor_halves a b,
  bit_xor-lt k (a / 2) (b / 2) (omega (arith, pow-suc 2 k)) (omega (arith, pow-suc 2 k)),
)

-- A test of the `n` numbers from `i` on, and what it says of each.
abbrev pub passes : (i n : ℕ) → (ℕ → Bool) → Bool
passes i zero test = true
passes i (suc n) test = test i && passes (suc i) n test

passes_at :
    (i n : ℕ) (test : ℕ → Bool) → passes i n test ≡ true → (d : ℕ) → d < n → test (d + i) ≡ true
passes_at i zero test all d under = absurd (omega arith)
passes_at i (suc n) test all zero under = ground arith
passes_at i (suc n) test all (suc d) under =
    let later : passes (suc i) n test ≡ true = ground arith in
    let moved : d + suc i ≡ suc d + i = omega arith in
    rw moved at (passes_at (suc i) n test later d (omega arith))

pub passes_below :
    (n : ℕ) (test : ℕ → Bool) → passes 0 n test ≡ true → (x : ℕ) → x < n → test x ≡ true
passes_below n test all x under =
    let same : x + 0 ≡ x = omega arith in rw same at (passes_at 0 n test all x under)
