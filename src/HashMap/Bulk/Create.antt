-- ===== src/HashMap/Bulk/Create.antt =====
-- `hashmap_create`: an empty map of sixteen buckets, or nothing.
use rf_gateway.Base.{
  ◌≡◌, refl, Bool, ◌&&◌, not, Bool-cases, inl, inr, none, some, [], arith, ◌==◌, if◌then◌else◌, ok,
  replicate, length-replicate, get_or-replicate, Ptr, null,
}
use rf_gateway.Links.{nil}
use rf_gateway.HashMap.{Entries, HashMap, resize, rehash}
use rf_gateway.HashMap.Bulk.{create, destroy, clear, clear_loop}
use rf_gateway.HashMap.View.{last, IsMap}

abbrev pub empty_map : HashMap
empty_map = record {
  entries = replicate 16 null;
  head = null;
  tail = null;
  capacity = 16;
  size = 0;
}

pub empty_map-IsMap : (h : Entries) → IsMap h empty_map []
empty_map-IsMap h = record {
  order = nil;
  counted = refl;
  keys = tt;
  wide = omega arith;
  width = length-replicate 16 null;
  chains = λ i lt. rw (get_or-replicate 16 null i) last;
}

-- Both allocations of `hashmap_create` succeed.
abbrev pub made : Ptr → Bool → Bool
made fresh room = not (fresh == null) && room

-- `hashmap_create` makes an empty map if both its allocations succeed, otherwise nothing, and leaves
-- the heap as it was.
pub create-made :
    (fresh : Ptr) (room : Bool) (h : Entries)
    → create fresh room h ≡ ok (if made fresh room then some empty_map else none) h
unfolding create resize rehash destroy clear clear_loop
create-made fresh room h = elim (Bool-cases (fresh == null)) [
  | inl failed ↦ rw failed refl
  | inr got ↦ elim (Bool-cases room) [
    | inl fits ↦ rw (got, fits) refl
    | inr full ↦ rw (got, full) refl
  ]
]
