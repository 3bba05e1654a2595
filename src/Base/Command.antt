-- ===== src/Base/Command.antt =====
-- Commands over a state that end well, run into undefined behaviour, or spend their fuel.
use mathlib.Core.Path.{◌≡◌, refl}

-- `fault` is what C leaves undefined: a dangling or null pointer, an index out of range.
pub data Run (S A : Type 0) : Type 0 where
  ok : A → S → Run S A
  fault out_of_fuel : Run S A

abbrev pub Cmd : Type 0 → Type 0 → Type 0
Cmd S A = S → Run S A

module _ {S A : Type 0} where
  abbrev pub pure : A → Cmd S A
  pure = ok

module _ {S A B : Type 0} where
  abbrev pub and_then : Run S A → (A → Cmd S B) → Run S B
  and_then (ok a s) k = k a s
  and_then fault k = fault
  and_then out_of_fuel k = out_of_fuel

  infixl 5 ◌>>=◌ ◌>>◌
  abbrev pub ◌>>=◌ : Cmd S A → (A → Cmd S B) → Cmd S B
  m >>= k = λ s. and_then (m s) k

  abbrev pub ◌>>◌ : Cmd S A → Cmd S B → Cmd S B
  m >> n = m >>= λ _. n

-- Total correctness of a run: no fault, enough fuel, and a postcondition.
pub data Returns {S A : Type 0} (P : A → S → Type 0) : Run S A → Type 0 where
  returns : {a : A} {s : S} → P a s → Returns P (ok a s)

module _ {S A : Type 0} {P : A → S → Type 0} where
  pub Returns-bind :
      {B : Type 0} {Q : B → S → Type 0} {r : Run S A} {k : A → Cmd S B}
      → Returns P r
      → ((a : A) (s : S) → P a s → Returns Q (k a s))
      → Returns Q (and_then r k)
  Returns-bind (returns p) next = next _ _ p

  pub Returns-mono :
      {Q : A → S → Type 0} {r : Run S A}
      → Returns P r
      → ((a : A) (s : S) → P a s → Q a s)
      → Returns Q r
  Returns-mono (returns p) weaken = returns (weaken _ _ p)

  -- The postcondition beside the run itself.
  pub Returns-run : {r : Run S A} → Returns P r → Returns (λ a s. P a s × (r ≡ ok a s)) r
  Returns-run (returns p) = returns (p, refl)

-- A run that faults, or ends well with a postcondition; never one that spends its fuel.
pub data Ends {S A : Type 0} (P : A → S → Type 0) : Run S A → Type 0 where
  ended : {a : A} {s : S} → P a s → Ends P (ok a s)
  faulted : Ends P fault

module _ {S A : Type 0} {P : A → S → Type 0} where
  pub Ends-bind :
      {B : Type 0} {Q : B → S → Type 0} {r : Run S A} {k : A → Cmd S B}
      → Ends P r
      → ((a : A) (s : S) → P a s → Ends Q (k a s))
      → Ends Q (and_then r k)
  Ends-bind (ended p) next = next _ _ p
  Ends-bind faulted next = faulted
