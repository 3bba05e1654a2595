-- ===== src/HashMap/Merge.antt =====
-- `hashmap_merge` against the contents of the two maps.
pub mod Once
pub mod Fresh
use mathlib.Core.Path.{subst}
use rf_gateway.Base.{
  ℕ, zero, suc, ◌+◌, ◌*◌, ◌<◌, ◌≡◌, ◌≢◌, refl, sym, ap, ◌∙◌, Bool, true, false, not, ◌&&◌,
  Bool-cases, inl, inr, none, some, List, [], ◌∷◌, ◌++◌, arith, ltb, ◌==◌, ==_iff, if◌then◌else◌,
  pure, ◌>>=◌, Run, Returns, returns, Returns-bind, Returns-mono, Ptr, null, Points,
  Points-not_null, load-ok, modify-ok, write, length,
}
use rf_gateway.Links
use rf_gateway.Links.{Link, link, Cells, Seg, nil, cons, has, has-append, ◌∈◌, ◌∉◌, ne_of_mem}
use rf_gateway.HashMap.{HEntry, Entries, HashMap, SetResult, errno_clear, enomem, set, resize}
use rf_gateway.HashMap.Bulk.{Alloc, next_alloc, rest_allocs, merge_loop, merge}
use rf_gateway.HashMap.View.{
  Pair, IsMap, holds, value_of, addr_of, entry-of, entry_at, orders, order_opt,
}
use rf_gateway.HashMap.Lookup.{find-addr_of}
use rf_gateway.HashMap.Assign.{assign, has-assign, has-addr_of}
use rf_gateway.HashMap.Resize.{resize-Resized}
use rf_gateway.HashMap.Set.{Added, set-SetDone, set-Added, set-no_memory}
use rf_gateway.HashMap.Contents.{
  Contents, contents, contents-assign, contents-snoc, update, is_some, is_some-contents,
}
use rf_gateway.HashMap.Merge.Once.{
  Returns-both, set-outside, merged, went_on, gets_in, next_capacity, next_size, all_get_in,
  merge_done, Stored, set-Stored,
}
use rf_gateway.HashMap.Merge.Fresh.{
  Unused, fresh-absent, Unused-kept, next_alloc-Unused, rest_allocs-Unused,
}

-- What `hashmap_merge` ends in, with the result that `success` says: the map that grows, with all the
-- other's pairs stored if the result is true, and each other live entry as it was.
pub record Merged (success : Bool) (h : Entries) (xs zs : Cells Pair) (r : Bool × HashMap)
    (g : Entries) : Type 0 where
  pub done : r.0 ≡ success
  pub cells : Cells Pair
  pub map : IsMap g r.1 cells
  pub all : r.0 ≡ true → contents cells ≡ merged zs (contents xs)
  pub outside : (a : Ptr) (n : HEntry) → a ≢ null → a ∉ xs → h a ≡ some n → g a ≡ some n
  pub apart : (a : Ptr) (n : HEntry) → a ≢ null → a ∉ xs → h a ≡ some n → a ∉ cells

merge_loop-Merged :
    (k : ℕ) (allocs : List Alloc) (h : Entries) (m : HashMap) {xs : Cells Pair} {lst before p : Ptr}
    {zs : Cells Pair}
    → IsMap h m xs
    → Seg (orders h) lst null before p zs
    → ((a : Ptr) → a ∈ zs → a ∉ xs)
    → Unused h allocs
    → length zs < k
    → Returns
        (Merged (all_get_in m.capacity m.size allocs zs (contents xs)) h xs zs)
        (merge_loop k allocs m p h)
unfolding merge_loop
merge_loop-Merged zero allocs h m is s apart unused fuel = absurd (omega arith)
merge_loop-Merged (suc k) allocs h m {xs} is nil apart unused fuel = returns {s = h} (record {
  done = refl;
  cells = xs;
  map = is;
  all = λ e. refl;
  outside = λ a n ne o e. e;
  apart = λ a n ne o e. o;
})
merge_loop-Merged (suc k) allocs h m {xs} {lst} {before} is
      (cons {p} {q} {v = kv} {xs = zs} e out s) apart unused fuel =
    let (n, at, part) = entry_at e in
    let fresh = (next_alloc allocs).0 in
    let live = next_alloc-Unused h allocs unused in
    let out_fresh : fresh ∉ ((p, kv) ∷ zs) =
      fresh-absent fresh h (cons e out s) (λ nz. (live nz).0) in
    rw (Points-not_null at, load-ok at)
      (Returns-bind
        (Returns-both
          (set-Stored h m n.key n.value fresh (next_alloc allocs).1 is (λ nz. (live nz).0))
          (set-outside h m n.key n.value fresh (next_alloc allocs).1 is (λ nz. (live nz).0)))
        λ (old, errno, m') g (st, kept).
          let ne_fresh : (a : Ptr) → a ∈ ((p, kv) ∷ zs) → a ≢ fresh =
            λ a i z. ne_of_mem a fresh ((p, kv) ∷ zs) i out_fresh (sym z) in
          let same : (a : Ptr) → a ∈ ((p, kv) ∷ zs) → orders g a ≡ orders h a =
            λ a i. unfold orders in ap order_opt (kept a (apart a i) (ne_fresh a i)) in
          let ne_live : (a : Ptr) (o : HEntry) → a ≢ null → h a ≡ some o → a ≢ fresh =
            λ a o ne there z.
              let free = live (λ y. ne (z ∙ y)) in
              let none_there : h a ≡ none = ap h z ∙ free.0 in ground arith in
          let here : p ∈ ((p, kv) ∷ zs) = ground arith in
          let at' : Points g p n = record {
            ne_null = at.ne_null;
            holds = kept p (apart p here) (ne_fresh p here) ∙ at.holds;
          } in
          let rest : Seg (orders g) lst null p q zs = Links.frame s λ a i. same a (ground arith) in
          let next : n.next ≡ q = ap (λ (l : Link Pair). l.next) part in
          let key : n.key ≡ kv.0 = ap (λ (l : Link Pair). l.value.0) part in
          let value : n.value ≡ kv.1 = ap (λ (l : Link Pair). l.value.1) part in
          let unused' : Unused g (rest_allocs allocs) =
            Unused-kept fresh (rest_allocs allocs) is kept (λ nz. (live nz).1)
              (rest_allocs-Unused h allocs unused) in
          let held : holds n.key xs ≡ is_some (contents xs kv.0) =
            ap (λ j. holds j xs) key ∙ sym (is_some-contents xs kv.0) in
          let asked : went_on old errno
              ≡ gets_in m.capacity m.size (next_alloc allocs) (is_some (contents xs kv.0)) =
            st.on ∙ ap (gets_in m.capacity m.size (next_alloc allocs)) held in
          rw (load-ok at', next)
            (elim (Bool-cases ((old == null) && not (errno == errno_clear))) [
              | inl stops ↦ rw stops (
                  returns {s = g} (record {
                    done = rw (sym asked ∙ ap not stops) refl;
                    cells = st.cells;
                    map = st.map;
                    all = λ on. cc;
                    outside = λ a o ne out there. kept a out (ne_live a o ne there) ∙ there;
                    apart = λ a o ne out there. st.inside a out (ne_live a o ne there);
                  }))
              | inr on ↦
                  let stored : contents st.cells ≡ update (contents xs) kv.0 (some kv.1) =
                    rw (key, value) at (st.stored (rw on refl)) in
                  let capacity =
                    st.capacity (ap not on) ∙ ap (next_capacity m.capacity m.size) held in
                  let size = st.size (ap not on) ∙ ap (next_size m.size) held in
                  rw on (
                    Returns-mono
                      (merge_loop-Merged k (rest_allocs allocs) g m' st.map rest
                        (λ a i. st.inside a (apart a (ground arith)) (ne_fresh a (ground arith)))
                        unused' (omega arith))
                      λ r g' d. record {
                        done = rw (sym asked ∙ ap not on, ← capacity, ← size, ← stored) d.done;
                        cells = d.cells;
                        map = d.map;
                        all = λ done. d.all done ∙ ap (merged zs) stored;
                        outside = λ a o ne out there.
                            let apart' = ne_live a o ne there in
                            d.outside a o ne (st.inside a out apart') (kept a out apart' ∙ there);
                        apart = λ a o ne out there.
                            let apart' = ne_live a o ne there in
                            d.apart a o ne (st.inside a out apart') (kept a out apart' ∙ there);
                      })
            ]))

-- `hashmap_merge` of two well-formed maps with different entries, where the allocator gives unused
-- addresses, each once: it ends well, with a well-formed map. The result is true exactly if the
-- memory is enough: for the buckets that both need together, if the map has fewer, for an entry for
-- each new key, and for twice the buckets at each new entry that makes the map more than three
-- quarters full.
-- Then all pairs of the other map are stored in it, in order, so that theirs take precedence. Every
-- live entry outside of the map, those of the other map among them, is as it was.
pub merge-Merged :
    (room : Bool) (allocs : List Alloc) (h : Entries) (this other : HashMap) {xs zs : Cells Pair}
    → IsMap h this xs
    → IsMap h other zs
    → ((a : Ptr) → a ∈ zs → a ∉ xs)
    → Unused h allocs
    → Returns
        (Merged (merge_done room allocs this.capacity this.size zs (contents xs)) h xs zs)
        (merge room allocs this other h)
unfolding merge resize
merge-Merged room allocs h this other {xs} {zs} is is' apart unused =
    let total = this.size + other.size in
    elim (Bool-cases (ltb this.capacity total)) [
      | inr enough ↦
          rw (← is'.counted, enough)
            (merge_loop-Merged (other.size + 1) allocs h this is is'.order apart unused
              (omega (arith, is'.counted)))
      | inl short ↦ rw (← is'.counted, short) (grow room (ground arith))
    ]
  where
    grow :
        (room : Bool)
        → 0 < this.size + other.size
        → Returns
            (Merged
              (if room
                then all_get_in (this.size + other.size) this.size allocs zs (contents xs)
                else false)
              h
              xs
              zs)
            ((do
              (fits, this') ← resize room this (this.size + other.size)
              if fits
                  then merge_loop (other.size + 1) allocs this' other.head
                  else pure (false, this'))
              h)
    grow false some_room = returns {s = h} (record {
      done = refl;
      cells = xs;
      map = is;
      all = λ done. cc;
      outside = λ a n ne o there. there;
      apart = λ a n ne o there. o;
    })
    grow true some_room =
        Returns-bind
          (resize-Resized h this (this.size + other.size) some_room is.order is.counted is.keys)
          λ (fits, this') g d.
            let other' : Seg (orders g) other.tail null null other.head zs =
              subst (λ o. Seg o other.tail null null other.head zs) (sym d.order) is'.order in
            let unused' : Unused g allocs =
              Unused-kept null allocs is (λ a o ne. d.outside a o) (λ nz. absurd (nz refl))
                unused in
            rw d.done (
              Returns-mono
                (merge_loop-Merged (other.size + 1) allocs g this' d.map other' apart unused'
                  (omega (arith, is'.counted)))
                λ r g' e. record {
                  done = rw (← d.capacity, ← (d.map.counted ∙ sym is.counted)) e.done;
                  cells = e.cells;
                  map = e.map;
                  all = e.all;
                  outside = λ a n ne o there. e.outside a n ne o (d.outside a o ∙ there);
                  apart = λ a n ne o there. e.apart a n ne o (d.outside a o ∙ there);
                })
