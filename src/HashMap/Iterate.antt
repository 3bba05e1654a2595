-- ===== src/HashMap/Iterate.antt =====
-- `hashmap_iterator` and `hashmap_next_entry` of hashmap.c.
use rf_gateway.Base.{
  ℕ, zero, suc, ◌+◌, ◌<◌, ◌≡◌, ◌≢◌, refl, Bool, ◌&&◌, Option, some, List, [], ◌∷◌, arith, ◌==◌,
  if◌then◌else◌, length, Ptr, null, ok, Cmd, pure, ◌>>=◌, load, Points-not_null, load-ok,
  ne→==-false, ap,
}
use rf_gateway.Iterator.{Iterator, iterator_create, walk}
use rf_gateway.Links.{Cells, Seg, nil, cons}
use rf_gateway.HashMap.{Entries, HashMap}
use rf_gateway.HashMap.View.{Pair, orders, entry_at, IsMap}

unfoldable pub iterator : (fresh : Ptr) → HashMap → Option Iterator
iterator fresh m = iterator_create fresh m.head

unfoldable pub next_entry : Iterator → Cmd Entries (Ptr × Iterator)
next_entry it = do
  let first = (it.current == null) && (it.index == 0)
  if it.iterable == null then pure (null, record it { current = null }) else do
    entry ← load it.iterable
    pure (
      it.iterable,
      record {
        index = if first then it.index else it.index + 1;
        iterable = entry.next;
        current = it.iterable;
      },
    )

-- The addresses of the entries, with their positions from `i` on.
abbrev pub numbered : ℕ → Cells Pair → List (ℕ × Ptr)
numbered i [] = []
numbered i ((p, kv) ∷ xs) = (i, p) ∷ numbered (i + 1) xs

abbrev at_start : Ptr → ℕ → Bool
at_start current index = (current == null) && (index == 0)

walk-numbered :
    (k : ℕ) (it : Iterator) {h : Entries} {last before : Ptr} {xs : Cells Pair}
    → Seg (orders h) last null before it.iterable xs
    → length xs < k
    → walk next_entry k it h
      ≡ ok (numbered (if at_start it.current it.index then it.index else it.index + 1) xs) h
unfolding walk next_entry
walk-numbered zero it s fuel = absurd (omega arith)
walk-numbered (suc k) it nil fuel = refl
walk-numbered (suc k) it (cons {q} e out s) fuel =
    let (n, points, eq) = entry_at e in
    let i = if at_start it.current it.index then it.index else it.index + 1 in
    let next : Iterator = record { index = i; iterable = q; current = it.iterable } in
    rw
      (
        Points-not_null points,
        load-ok points,
        ap (λ l. l.next) eq,
        Points-not_null points,
        walk-numbered k next s (omega arith),
        Points-not_null points,
      )
      refl

-- A loop over `hashmap_iterator` sees every entry once, in insertion order, with its position from
-- 0 on.
pub walk-map :
    {h : Entries} {m : HashMap} {xs : Cells Pair} (fresh : Ptr)
    → fresh ≢ null
    → IsMap h m xs
    → (it : Iterator) × (iterator fresh m ≡ some it)
      × (walk next_entry (m.size + 1) it h ≡ ok (numbered 0 xs) h)
unfolding iterator iterator_create
walk-map {m} fresh got is =
    let start : Iterator = record { index = 0; iterable = m.head; current = null } in
    (
      start,
      rw (ne→==-false fresh null got) refl,
      walk-numbered (m.size + 1) start is.order (omega (arith, is.counted)),
    )
