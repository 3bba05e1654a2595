-- ===== src/Iterator.antt =====
-- `struct iterator` of iterator.c and iterator.h. The two pointers to functions are the functions
-- that a walk is given; the iterator itself is passed and returned.
use rf_gateway.Base.{
  ℕ, zero, suc, Option, none, some, List, [], ◌∷◌, ◌==◌, if◌then◌else◌, Ptr, null, Cmd, out_of_fuel,
  pure, ◌>>=◌,
}

pub record Iterator : Type 0 where
  pub index : ℕ
  pub iterable : Ptr
  pub current : Ptr

-- `iterator_create`: `fresh` is the address that `calloc` gives.
unfoldable pub iterator_create : (fresh iterable : Ptr) → Option Iterator
iterator_create fresh iterable =
    if fresh == null then none else some (record { index = 0; iterable = iterable; current = null })

-- What a loop `while (iter->next(iter))` sees: the index and the current item of each round.
unfoldable pub walk :
    {S : Type 0}
    → (next : Iterator → Cmd S (Ptr × Iterator)) → ℕ
    → Iterator
    → Cmd S (List (ℕ × Ptr))
walk next zero it = λ _. out_of_fuel
walk next (suc k) it = do
  (item, it') ← next it
  if item == null then pure [] else do rest ← walk next k it'; pure ((it'.index, item) ∷ rest)
