-- ===== src/HashMap/Bulk/Clear.antt =====
-- `hashmap_clear` and `hashmap_destroy` against the entries that the map stands for.
use rf_gateway.Base.{
  ℕ, zero, suc, ◌+◌, ◌<◌, ◌≡◌, refl, none, [], arith, if◌then◌else◌, length, length-replicate,
  get_or-replicate, Ptr, null, Returns, returns, Returns-bind, Returns-mono, Points-not_null,
  load-ok, free-ok, write, ap,
}
use rf_gateway.Links
use rf_gateway.Links.{Cells, has, Seg, nil, cons}
use rf_gateway.HashMap.{Entries, HashMap}
use rf_gateway.HashMap.Bulk.{clear_loop, clear, destroy}
use rf_gateway.HashMap.View.{Pair, orders, orders-write, entry_at, last, IsMap}

-- `g` is `h` less the entries of `xs`.
abbrev pub Without : Cells Pair → Entries → Entries → Type 0
Without xs h g = (a : Ptr) → g a ≡ (if has a xs then none else h a)

clear_loop-Without :
    (k : ℕ) (h : Entries) {last before p : Ptr} {xs : Cells Pair}
    → Seg (orders h) last null before p xs
    → length xs < k
    → Returns (λ _. Without xs h) (clear_loop k p h)
unfolding clear_loop
clear_loop-Without zero h s fuel = absurd (omega arith)
clear_loop-Without (suc k) h nil fuel = returns {s = h} λ a. refl
clear_loop-Without (suc k) h {last} (cons {p} {q} {v} {xs} e out s) fuel =
    let (n, points, eq) = entry_at e in
    let rest : Seg (orders (write h p none)) last null p q xs =
      rw (orders-write h p none) (Links.frame-write p none s out) in
    rw (Points-not_null points, load-ok points, free-ok points, ap (λ l. l.next) eq)
      (Returns-mono (clear_loop-Without k (write h p none) rest (omega arith))
        λ _ g gone a. unfold write in ground (arith, gone a))

-- `hashmap_clear` ends within one round more than there are entries, frees exactly the entries, and
-- leaves a well-formed empty map with as many buckets.
pub clear-IsMap :
    {h : Entries} {m : HashMap} {xs : Cells Pair}
    → IsMap h m xs
    → Returns (λ m' g. IsMap g m' [] × (m'.capacity ≡ m.capacity) × Without xs h g) (clear m h)
unfolding clear
clear-IsMap {h} {m} is =
    Returns-bind (clear_loop-Without (m.size + 1) h is.order (omega (arith, is.counted)))
      λ _ g gone. returns (
        record {
          order = nil;
          counted = refl;
          keys = tt;
          wide = is.wide;
          width = length-replicate m.capacity null;
          chains = λ i lt. rw (get_or-replicate m.capacity null i) last;
        },
        refl,
        gone,
      )

-- `hashmap_destroy` frees exactly the entries.
pub destroy-entries :
    {h : Entries} {m : HashMap} {xs : Cells Pair}
    → IsMap h m xs
    → Returns (λ _ g. Without xs h g) (destroy m h)
unfolding destroy
destroy-entries is = Returns-bind (clear-IsMap is) λ m' g (_, _, gone). returns gone
