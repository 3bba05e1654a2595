-- ===== src/HashMap/Bulk.antt =====
-- The functions of hashmap.c that go through a whole map.
pub mod Clear
pub mod Create
use rf_gateway.Base.{
  ℕ, zero, suc, ◌+◌, Bool, true, false, not, ◌&&◌, Option, none, some, List, [], ◌∷◌, ◌==◌, ltb,
  if◌then◌else◌, Ptr, null, Cmd, out_of_fuel, pure, ◌>>=◌, ◌>>◌, load, free, replicate,
}
use rf_gateway.HashMap.{Entries, HashMap, errno_clear, resize, set}

pub clear_loop : ℕ → (entry : Ptr) → Cmd Entries (Unit {0})
clear_loop zero entry = λ _. out_of_fuel
clear_loop (suc k) entry =
    if entry == null then pure tt else do n ← load entry; free entry; clear_loop k n.next

unfoldable pub clear : HashMap → Cmd Entries HashMap
unfolding clear_loop
clear this = do
  clear_loop (this.size + 1) this.head
  pure (record {
    entries = replicate this.capacity null;
    head = null;
    tail = null;
    capacity = this.capacity;
    size = 0;
  })

-- `hashmap_destroy`; the array and the `struct hashmap` go with the entries.
unfoldable pub destroy : HashMap → Cmd Entries (Unit {0})
unfolding clear
destroy this = clear this >> pure tt

abbrev pub blank : HashMap
blank = record { entries = []; head = null; tail = null; capacity = 0; size = 0 }

-- `fresh` is for the `struct hashmap`, `room` for its first sixteen buckets.
unfoldable pub create : (fresh : Ptr) (room : Bool) → Cmd Entries (Option HashMap)
unfolding resize destroy
create fresh room = if fresh == null then pure none else do
  (made, this) ← resize room blank 16
  if made then pure (some this) else destroy this >> pure none

-- What the allocations of one `hashmap_set` give.
abbrev pub Alloc : Type 0
Alloc = Ptr × Bool

abbrev pub next_alloc : List Alloc → Alloc
next_alloc [] = (null, false)
next_alloc (a ∷ allocs) = a

abbrev pub rest_allocs : List Alloc → List Alloc
rest_allocs [] = []
rest_allocs (a ∷ allocs) = allocs

-- The loop of `hashmap_merge` over the entries of the other map.
unfoldable pub merge_loop : ℕ → List Alloc → HashMap → (entry : Ptr) → Cmd Entries (Bool × HashMap)
unfolding set
merge_loop zero allocs this entry = λ _. out_of_fuel
merge_loop (suc k) allocs this entry = if entry == null then pure (true, this) else do
  n ← load entry
  let (fresh, room) = next_alloc allocs
  (old, errno, this') ← set fresh room this n.key n.value
  n' ← load entry
  if old == null && not (errno == errno_clear)
      then pure (false, this')
      else merge_loop k (rest_allocs allocs) this' n'.next

unfoldable pub merge :
    (room : Bool) (allocs : List Alloc) → (this other : HashMap) → Cmd Entries (Bool × HashMap)
unfolding merge_loop resize
merge room allocs this other = do
  let total = this.size + other.size
  (fits, this') ← (if ltb this.capacity total then resize room this total else pure (true, this))
  if fits then merge_loop (other.size + 1) allocs this' other.head else pure (false, this')

-- `hashmap_clone` behind its `hashmap_create`.
unfoldable pub clone_into :
    (room : Bool) (allocs : List Alloc) → HashMap → Option HashMap → Cmd Entries (Option HashMap)
unfolding merge destroy
clone_into room allocs this none = pure none
clone_into room allocs this (some clone) = do
  (done, clone') ← merge room allocs clone this
  if done then pure (some clone') else destroy clone' >> pure none

unfoldable pub clone :
    (fresh : Ptr) (buckets room : Bool) (allocs : List Alloc)
    → HashMap
    → Cmd Entries (Option HashMap)
unfolding clone_into create
clone fresh buckets room allocs this = do c ← create fresh buckets; clone_into room allocs this c
