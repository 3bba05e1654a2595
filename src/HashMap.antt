-- ===== src/HashMap.antt =====
-- The functions of hashmap.c over a heap of `struct hentry`. A `struct hashmap` lives outside the
-- heap, so a function that updates one returns the new value. What an allocation gives is an
-- argument: the address of a new entry, null where `calloc` fails, and for a bucket array whether
-- there is room. The loops run on fuel: one more round than there are entries.
pub mod Bulk
pub mod View
pub mod Lookup
pub mod Assign
pub mod Resize
pub mod Insert
pub mod Set
pub mod Iterate
pub mod Removal
pub mod Contents
pub mod History
pub mod Merge
pub mod Clone
use rf_gateway.Base.{
  ℕ, zero, suc, ◌+◌, ◌-◌, ◌*◌, ◌%◌, Bool, true, false, not, ◌&&◌, Option, none, some, List, [], ◌∷◌,
  ◌==◌, ltb, if◌then◌else◌, Ptr, null, Heap, Cmd, fault, out_of_fuel, pure, ◌>>=◌, ◌>>◌, store,
  load, modify, free, length, get_or, set as set_elem, replicate,
}

-- `struct hentry`; `value` is the `void *` that the map stores.
pub record HEntry : Type 0 where
  pub prev : Ptr
  pub next : Ptr
  pub chain : Ptr
  pub key : ℕ
  pub value : Ptr

abbrev pub Entries : Type 0
Entries = Heap HEntry

-- `struct hashmap`; `entries` is the array behind the pointer, empty for a null pointer.
pub record HashMap : Type 0 where
  pub entries : List Ptr
  pub head : Ptr
  pub tail : Ptr
  pub capacity : ℕ
  pub size : ℕ

-- The two values of `errno` that the file tells apart.
abbrev pub errno_clear : ℕ
errno_clear = 0

abbrev pub enomem : ℕ
enomem = 12

-- `entries[i]`
unfoldable pub bucket_at : List Ptr → ℕ → Cmd Entries Ptr
bucket_at buckets i h = if ltb i (length buckets) then pure (get_or buckets i null) h else fault

-- `key % capacity`
unfoldable pub bucket_of : ℕ → (capacity : ℕ) → Cmd Entries ℕ
bucket_of key capacity h = if capacity == 0 then fault else pure (key % capacity) h

-- `hentry_create`: what `calloc` and the assignments leave at `fresh`.
abbrev pub hentry_create : ℕ → Ptr → HEntry
hentry_create key value = record {
  prev = null;
  next = null;
  chain = null;
  key = key;
  value = value;
}

-- The walk along a chain that `hashmap_get`, `hashmap_contains` and `hashmap_set` share: the first
-- entry with the key, or null.
unfoldable pub find_loop : ℕ → (key : ℕ) → (entry : Ptr) → Cmd Entries Ptr
find_loop zero key entry = λ _. out_of_fuel
find_loop (suc k) key entry =
    if entry == null
    then pure null
    else do n ← load entry; if n.key == key then pure entry else find_loop k key n.chain

unfoldable pub find : HashMap → ℕ → Cmd Entries Ptr
unfolding find_loop bucket_at bucket_of
find this key = do
  bucket ← bucket_of key this.capacity
  entry ← bucket_at this.entries bucket
  find_loop (this.size + 1) key entry

unfoldable pub get : HashMap → ℕ → Cmd Entries Ptr
unfolding find
get this key = do
  entry ← find this key
  if entry == null then pure null else do n ← load entry; pure n.value

unfoldable pub contains : HashMap → ℕ → Cmd Entries Bool
unfolding find
contains this key = do entry ← find this key; pure (not (entry == null))

-- The loop of `hashmap_resize`: each entry goes to the front of its new chain.
unfoldable pub rehash :
    ℕ → (capacity : ℕ) → (buckets : List Ptr) → (entry : Ptr) → Cmd Entries (List Ptr)
rehash zero capacity buckets entry = λ _. out_of_fuel
rehash (suc k) capacity buckets entry = if entry == null then pure buckets else do
  n ← load entry
  bucket ← bucket_of n.key capacity
  start ← bucket_at buckets bucket
  modify entry (λ n. record n { chain = start })
  n' ← load entry
  rehash k capacity (set_elem buckets bucket entry) n'.next

-- `room` says whether `calloc` finds memory for the new buckets.
unfoldable pub resize : (room : Bool) → HashMap → (capacity : ℕ) → Cmd Entries (Bool × HashMap)
unfolding rehash bucket_at bucket_of
resize room this capacity = if not room then pure (false, this) else do
  buckets ← rehash (this.size + 1) capacity (replicate capacity null) this.head
  pure (true, record this { entries = buckets; capacity = capacity })

-- `(double)size / capacity > .75`, which is exact for every size that memory can hold.
abbrev pub overloaded : HashMap → Bool
overloaded m = ltb (3 * m.capacity) (4 * m.size)

-- A new entry is linked into its chain and behind the last one.
unfoldable pub link_entry : (entry bucket : ℕ) → HashMap → Cmd Entries HashMap
unfolding bucket_at
link_entry entry bucket this = do
  start ← bucket_at this.entries bucket
  modify entry (λ n. record n { chain = start })
  let head = if this.head == null then entry else this.head
  if this.tail == null then pure tt else do
    modify this.tail (λ n. record n { next = entry })
    modify entry (λ n. record n { prev = this.tail })
  pure (record {
    entries = set_elem this.entries bucket entry;
    head = head;
    tail = entry;
    capacity = this.capacity;
    size = this.size + 1;
  })

-- The result of `hashmap_set`: the value it returns, `errno`, and the map.
abbrev pub SetResult : Type 0
SetResult = Ptr × ℕ × HashMap

-- `hashmap_set` behind the creation of the entry: the map grows if it is overloaded.
unfoldable pub set_new :
    (fresh : Ptr) (room : Bool) → HashMap → (bucket key : ℕ) → Ptr → Cmd Entries SetResult
unfolding link_entry resize
set_new fresh room this bucket key value = do
  store fresh (some (hentry_create key value))
  this' ← link_entry fresh bucket this
  if overloaded this'
      then (do
        (grown, this'') ← resize room this' (this'.capacity * 2)
        pure (null, (if grown then errno_clear else enomem), this''))
      else pure (null, errno_clear, this')

unfoldable pub set : (fresh : Ptr) (room : Bool) → HashMap → ℕ → Ptr → Cmd Entries SetResult
unfolding find set_new
set fresh room this key value = do
  entry ← find this key
  if entry == null
      then (if fresh == null
          then pure (null, enomem, this)
          else (do bucket ← bucket_of key this.capacity; set_new fresh room this bucket key value))
      else (do
        n ← load entry
        modify entry (λ n. record n { value = value })
        pure (n.value, errno_clear, this))

-- `hashmap_remove` behind the search: the statements that take out `entry`, whose fields are `n`.
pub unlink_entry :
    HashMap → (bucket : ℕ) → (previous entry : Ptr) → HEntry → Cmd Entries (Ptr × HashMap)
unfolding bucket_at
unlink_entry this bucket previous entry n = do
  if previous == null then pure tt else modify previous (λ m. record m { chain = n.chain })
  start ← bucket_at this.entries bucket
  let entries = if entry == start then set_elem this.entries bucket n.chain else this.entries
  let head = if entry == this.head then n.next else this.head
  let tail = if entry == this.tail then n.prev else this.tail
  if n.prev == null then pure tt else modify n.prev (λ m. record m { next = n.next })
  if n.next == null then pure tt else modify n.next (λ m. record m { prev = n.prev })
  free entry
  pure (
    n.value,
    record {
      entries = entries;
      head = head;
      tail = tail;
      capacity = this.capacity;
      size = this.size - 1;
    },
  )

pub remove_loop :
    ℕ → HashMap → (key bucket : ℕ) → (previous entry : Ptr) → Cmd Entries (Ptr × HashMap)
remove_loop zero this key bucket previous entry = λ _. out_of_fuel
remove_loop (suc k) this key bucket previous entry = if entry == null then pure (null, this) else do
  n ← load entry
  if n.key == key
      then unlink_entry this bucket previous entry n
      else remove_loop k this key bucket entry n.chain

unfoldable pub remove : HashMap → ℕ → Cmd Entries (Ptr × HashMap)
unfolding remove_loop unlink_entry bucket_at bucket_of
remove this key = do
  bucket ← bucket_of key this.capacity
  entry ← bucket_at this.entries bucket
  remove_loop (this.size + 1) this key bucket null entry
