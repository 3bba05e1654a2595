-- ===== src/HashMap/Clone.antt =====
-- `hashmap_clone` against the contents of the map.
use mathlib.Core.Path.{fun_ext}
use rf_gateway.Base.{
  ℕ, ◌≡◌, ◌≢◌, refl, sym, ◌∙◌, Bool, true, false, Bool-cases, ◌&&◌, inl, inr, Option, none, some,
  List, [], ◌∷◌, arith, ◌==◌, ==_iff, if◌then◌else◌, Returns, returns, Returns-bind, Ptr, null,
}
use rf_gateway.Links.{Cells}
use rf_gateway.HashMap.{HEntry, Entries, HashMap}
use rf_gateway.HashMap.Bulk.{Alloc, clone, clone_into}
use rf_gateway.HashMap.Bulk.Clear.{destroy-entries}
use rf_gateway.HashMap.Bulk.Create.{empty_map, empty_map-IsMap, made, create-made}
use rf_gateway.HashMap.View.{Pair, IsMap, DistinctKeys, holds, value_of}
use rf_gateway.HashMap.Merge.{merge-Merged}
use rf_gateway.HashMap.Merge.Once.{merged, merge_done}
use rf_gateway.HashMap.Merge.Fresh.{Unused}
use rf_gateway.HashMap.Contents.{Contents, nothing, contents, update}

-- Pairs that are stored one after the other take the place of what was there.
pub merged-contents :
    (zs : Cells Pair) (f : Contents) (q : ℕ)
    → DistinctKeys zs
    → merged zs f q ≡ (if holds q zs then some (value_of q zs) else f q)
merged-contents [] f q d = refl
merged-contents ((p, (k, v)) ∷ zs) f q d =
    merged-contents zs (update f k (some v)) q d.1 ∙ elim (Bool-cases (k == q)) [
      | inl same ↦
          let e : k ≡ q = (==_iff k q).0 same in
          let absent : holds q zs ≡ false = rw e at d.0 in
          let back : (q == k) ≡ true = (==_iff q k).1 (sym e) in rw (same, absent, back) refl
      | inr other ↦ let back : (q == k) ≡ false = ground arith in rw (other, back) refl
    ]

-- Whether `hashmap_clone` gives a map.
abbrev pub is_given : Option HashMap → Bool
is_given none = false
is_given (some m) = true

-- What `hashmap_clone` ends in: where `success` is true, a map of its own with the same contents,
-- otherwise nothing; each live entry is as it was.
pub record Replica (success : Bool) (h : Entries) (zs : Cells Pair) (r : Option HashMap)
    (g : Entries) : Type 0 where
  pub done : is_given r ≡ success
  pub made_of :
      (m : HashMap) → r ≡ some m → (ys : Cells Pair) × IsMap g m ys × (contents ys ≡ contents zs)
  pub outside : (a : Ptr) (n : HEntry) → a ≢ null → h a ≡ some n → g a ≡ some n

-- `hashmap_clone` of a well-formed map, where the allocator gives unused addresses, each once: it ends
-- well. It returns a map exactly if there is memory for the handle, for its sixteen buckets, and for
-- what the merge of the entries needs. That map is well-formed and has the same contents. Every entry
-- that was live is as it was.
pub clone-Replica :
    (fresh : Ptr) (buckets room : Bool) (allocs : List Alloc) (h : Entries) (this : HashMap)
    {zs : Cells Pair}
    → IsMap h this zs
    → Unused h allocs
    → Returns
        (Replica (made fresh buckets && merge_done room allocs 16 0 zs nothing) h zs)
        (clone fresh buckets room allocs this h)
unfolding clone clone_into
clone-Replica fresh buckets room allocs h this {zs} is unused =
    rw (create-made fresh buckets h) (elim (Bool-cases (made fresh buckets)) [
      | inr failed ↦ rw failed (
          returns {s = h}
            (record { done = refl; made_of = λ m e. cc; outside = λ a n ne there. there }))
      | inl ready ↦ rw ready (
          Returns-bind
            (merge-Merged room allocs h empty_map this (empty_map-IsMap h) is (λ a i. refl) unused)
            λ (done, c) g d. elim (Bool-cases done) [
              | inl all ↦ rw all (
                  returns {s = g} (record {
                    done = rw all at d.done;
                    made_of = λ m (e : some c ≡ some m).
                        let same : c ≡ m = cc in
                        (
                          d.cells,
                          rw same at d.map,
                          d.all all ∙ fun_ext λ q. merged-contents zs (contents []) q is.keys,
                        );
                    outside = λ a n ne there. d.outside a n ne refl there;
                  }))
              | inr part ↦ rw part (
                  Returns-bind (destroy-entries d.map) λ u g' gone. returns {s = g'} (record {
                    done = rw part at d.done;
                    made_of = λ m e. cc;
                    outside = λ a n ne there.
                        let apart = d.apart a n ne refl there in
                        let kept = d.outside a n ne refl there in
                        ground (arith, gone a, apart, kept);
                  }))
            ])
    ])
