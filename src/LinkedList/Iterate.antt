-- ===== src/LinkedList/Iterate.antt =====
-- `list_iterator` and `list_next_node` of list.c.
use rf_gateway.Base.{
  ℕ, zero, suc, ◌+◌, ◌<◌, ◌≡◌, ◌≢◌, refl, Bool, ◌&&◌, Bool-cases, inl, inr, Option, some, List, [],
  ◌∷◌, arith, ◌==◌, if◌then◌else◌, length, Ptr, null, ok, Cmd, pure, ◌>>=◌, load, Points-not_null,
  load-ok, ne→==-false,
}
use rf_gateway.Iterator.{Iterator, iterator_create, walk}
use rf_gateway.Links.{Cells, values, Seg, nil, cons}
use rf_gateway.LinkedList.{Handle, ListNodes}
use rf_gateway.LinkedList.Valid.{IsList}

unfoldable pub iterator : (fresh : Ptr) → Handle → Option Iterator
iterator fresh l = iterator_create fresh l.head

unfoldable pub next_node : Iterator → Cmd ListNodes (Ptr × Iterator)
next_node it = do
  let first = (it.current == null) && (it.index == 0)
  if it.iterable == null then pure (null, record it { current = null }) else do
    node ← load it.iterable
    pure (
      node.value,
      record {
        index = if first then it.index else it.index + 1;
        iterable = node.next;
        current = node.value;
      },
    )

-- The items up to the first null pointer, with their positions from `i` on.
abbrev pub indexed : ℕ → List Ptr → List (ℕ × Ptr)
indexed i [] = []
indexed i (v ∷ vs) = if v == null then [] else (i, v) ∷ indexed (i + 1) vs

abbrev at_start : Ptr → ℕ → Bool
at_start current index = (current == null) && (index == 0)

walk-indexed :
    (k : ℕ) (it : Iterator) {h : ListNodes} {last before : Ptr} {xs : Cells Ptr}
    → Seg h last null before it.iterable xs
    → length xs < k
    → walk next_node k it h
      ≡ ok (indexed (if at_start it.current it.index then it.index else it.index + 1) (values xs)) h
unfolding walk next_node
walk-indexed zero it s fuel = absurd (omega arith)
walk-indexed (suc k) it nil fuel = refl
walk-indexed (suc k) it (cons {q} {v} e out s) fuel =
    let i = if at_start it.current it.index then it.index else it.index + 1 in
    rw (Points-not_null e, load-ok e)
      (elim (Bool-cases (v == null)) [
        | inl stop ↦ rw stop refl
        | inr on ↦
            let next : Iterator = record { index = i; iterable = q; current = v } in
            rw (on, walk-indexed k next s (omega arith), on) refl
      ])

-- A loop over `list_iterator` sees the items in order with their positions from 0 on, but ends at
-- the first item that is a null pointer.
pub walk-iterator :
    {h : ListNodes} {l : Handle} {xs : Cells Ptr} (fresh : Ptr)
    → fresh ≢ null
    → IsList h l xs
    → (it : Iterator) × (iterator fresh l ≡ some it)
      × (walk next_node (l.length + 1) it h ≡ ok (indexed 0 (values xs)) h)
unfolding iterator iterator_create
walk-iterator {l} fresh got is =
    let start : Iterator = record { index = 0; iterable = l.head; current = null } in
    (
      start,
      rw (ne→==-false fresh null got) refl,
      walk-indexed (l.length + 1) start is.chain (omega (arith, is.counted)),
    )
