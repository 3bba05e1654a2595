-- ===== src/Tests/Maps.antt =====
-- The functions of hashmap.c on a full map of two entries, whose keys meet in one bucket.
use rf_gateway.Base.{
  ℕ, zero, suc, ◌<◌, ◌≡◌, refl, true, none, some, List, [], ◌∷◌, arith, ◌==◌, if◌then◌else◌, get_or,
  null, ok, Returns, write,
}
use rf_gateway.Links.{Cells, nil, cons}
use rf_gateway.HashMap.{HEntry, Entries, HashMap, get, set, resize}
use rf_gateway.HashMap.View.{Pair, orders, Chain, last, more, bucket, value_of, IsMap}
use rf_gateway.HashMap.Resize.{resize-IsMap}
use rf_gateway.Iterator.{Iterator, walk}
use rf_gateway.HashMap.Iterate.{iterator, next_entry, walk-map}
use rf_gateway.HashMap.{remove}
use rf_gateway.HashMap.Removal.Found.{Removed, remove-Removed}
use rf_gateway.HashMap.Bulk.{clear, clone, Alloc, merge}
use rf_gateway.HashMap.Bulk.Create.{empty_map, empty_map-IsMap}
use rf_gateway.HashMap.Clone.{Replica, clone-Replica}
use rf_gateway.HashMap.Merge.{Merged, merge-Merged}
use rf_gateway.HashMap.Merge.Fresh.{Unused}
use rf_gateway.HashMap.Bulk.Clear.{clear-IsMap, Without}
use rf_gateway.HashMap.Set.{set-SetDone, SetDone, get-set}

-- The key 1 has the value 11 at 100, the key 5 the value 12 at 101; both are in bucket 1.
abbrev first_entry : HEntry
first_entry = record { prev = null; next = 101; chain = null; key = 1; value = 11 }

abbrev second_entry : HEntry
second_entry = record { prev = 100; next = null; chain = 100; key = 5; value = 12 }

abbrev entries : Entries
entries = write (write (λ a. none) 100 (some first_entry)) 101 (some second_entry)

abbrev full : HashMap
full = record { entries = null ∷ 101 ∷ []; head = 100; tail = 101; capacity = 2; size = 2 }

abbrev pairs : Cells Pair
pairs = (100, (1, 11)) ∷ (101, (5, 12)) ∷ []

full-Chain : (i : ℕ) → i < 2 → Chain entries (get_or full.entries i null) (bucket 2 i pairs [])
unfolding write
full-Chain zero lt = last
full-Chain (suc zero) lt =
    more
      (record {
        node = second_entry;
        points = record { ne_null = omega arith; holds = refl };
        next = refl;
        key = refl;
        value = refl;
      })
      (more
        (record {
          node = first_entry;
          points = record { ne_null = omega arith; holds = refl };
          next = refl;
          key = refl;
          value = refl;
        })
        last)
full-Chain (suc (suc i)) lt = absurd (omega arith)

full-IsMap : IsMap entries full pairs
unfolding orders write
full-IsMap = record {
  order =
      cons (record { ne_null = omega arith; holds = refl }) refl
        (cons (record { ne_null = omega arith; holds = refl }) refl nil);
  counted = refl;
  keys = (refl, (refl, tt));
  wide = omega arith;
  width = refl;
  chains = full-Chain;
}

unused : entries 102 ≡ none
unfolding write
unused = refl

-- A third key makes the map grow.
set-SetDone_example :
    Returns (SetDone entries full pairs 102 true 9 13) (set 102 true full 9 13 entries)
set-SetDone_example = set-SetDone entries full 9 13 full-IsMap 102 true (λ nz. unused)

get-set_example :
    Returns
      (λ r g. (q : ℕ) → get r.2 q g ≡ ok (if q == 9 then 13 else value_of q pairs) g)
      (set 102 true full 9 13 entries)
get-set_example = get-set entries full 102 true 9 13 (omega arith) unused full-IsMap

resize-IsMap_example :
    Returns
      (λ (done, m') g.
        (done ≡ true) × IsMap g m' pairs × (m'.capacity ≡ 5) × (orders g ≡ orders entries))
      (resize true full 5 entries)
resize-IsMap_example =
    resize-IsMap entries full 5 (omega arith) full-IsMap.order full-IsMap.counted full-IsMap.keys

walk-map_example :
    (it : Iterator) × (iterator 8 full ≡ some it)
    × (walk next_entry 3 it entries ≡ ok ((0, 100) ∷ (1, 101) ∷ []) entries)
walk-map_example = walk-map 8 (omega arith) full-IsMap

clear-IsMap_example :
    Returns
      (λ m' g. IsMap g m' [] × (m'.capacity ≡ 2) × Without pairs entries g)
      (clear full entries)
clear-IsMap_example = clear-IsMap full-IsMap

remove-Removed_example : Returns (Removed entries full pairs 1) (remove full 1 entries)
remove-Removed_example = remove-Removed full-IsMap 1

-- Two addresses that are unused.
abbrev allocs : List Alloc
allocs = (102, true) ∷ (103, true) ∷ []

allocs-Unused : Unused entries allocs
unfolding write
allocs-Unused = (λ nz. (refl, refl), (λ nz. (refl, refl), tt))

merge-Merged_example :
    Returns (Merged true entries [] pairs) (merge true allocs empty_map full entries)
merge-Merged_example =
    merge-Merged true allocs entries empty_map full (empty_map-IsMap entries) full-IsMap
      (λ a i. refl) allocs-Unused

clone-Replica_example :
    Returns (Replica true entries pairs) (clone 200 true true allocs full entries)
clone-Replica_example = clone-Replica 200 true true allocs entries full full-IsMap allocs-Unused
