-- ===== src/HashMap/Merge/Once.antt =====
-- One round of `hashmap_merge`: a pair of the other map that is set, and when there is memory for it.
use rf_gateway.Base.{
  ℕ, ◌+◌, ◌*◌, ◌≡◌, ◌≢◌, refl, sym, ap, ◌∙◌, Bool, true, false, not, ◌&&◌, Bool-cases, inl, inr,
  none, some, List, [], ◌∷◌, ◌++◌, arith, ltb, ◌==◌, ==_iff, if◌then◌else◌, Run, Returns, returns,
  Returns-mono, Ptr, null, Points-not_null, load-ok, modify-ok, write, length,
}
use rf_gateway.Links.{Cells, has-append, ◌∈◌, ◌∉◌, ne_of_mem}
use rf_gateway.HashMap.{Entries, HashMap, SetResult, errno_clear, enomem, set}
use rf_gateway.HashMap.Bulk.{Alloc, next_alloc, rest_allocs}
use rf_gateway.HashMap.View.{Pair, IsMap, holds, value_of, addr_of, entry-of}
use rf_gateway.HashMap.Lookup.{find-addr_of}
use rf_gateway.HashMap.Assign.{assign, has-assign, has-addr_of}
use rf_gateway.HashMap.Set.{Added, set-SetDone, set-Added, set-no_memory}
use rf_gateway.HashMap.Contents.{
  Contents, contents, contents-assign, contents-snoc, update, is_some,
}

pub Returns-both :
    {S A : Type 0} {P Q : A → S → Type 0} {r : Run S A}
    → Returns P r
    → Returns Q r
    → Returns (λ a s. P a s × Q a s) r
Returns-both (returns p) (returns q) = returns (p, q)

-- `hashmap_set` writes only to the entries of its map and to the new one.
pub set-outside :
    (h : Entries) (m : HashMap) {xs : Cells Pair} (key : ℕ) (value : Ptr) (fresh : Ptr)
    (room : Bool)
    → IsMap h m xs
    → (fresh ≢ null → h fresh ≡ none)
    → Returns (λ r g. (a : Ptr) → a ∉ xs → a ≢ fresh → g a ≡ h a) (set fresh room m key value h)
unfolding set
set-outside h m {xs} key value fresh room is unused = elim (Bool-cases (holds key xs)) [
  | inl hit ↦
      let (n, at, has_key, old) = entry-of key is.order hit in
      let inside : addr_of key xs ∈ xs = has-addr_of key (addr_of key xs) xs hit refl in
      rw (find-addr_of is key, Points-not_null at, load-ok at, modify-ok at)
        (returns {s = write h (addr_of key xs) (some (record n { value = value }))} λ a o ne.
          let apart : a ≢ addr_of key xs = ne_of_mem (addr_of key xs) a xs inside o in
          unfold write in ground arith)
  | inr miss ↦ elim (Bool-cases (fresh == null)) [
    | inl failed ↦
        let e : fresh ≡ null = (==_iff fresh null).0 failed in
        rw (e, set-no_memory h m key value is room miss) (returns {s = h} λ a o ne. refl)
    | inr got ↦
        let nz : fresh ≢ null = ground arith in
        Returns-mono (set-Added h m key value is fresh room nz (unused nz) miss) λ r g d. d.outside
  ]
]

-- The contents after the pairs of `zs` are stored one after the other.
abbrev pub merged : Cells Pair → Contents → Contents
merged [] f = f
merged ((p, (key, value)) ∷ zs) f = merged zs (update f key (some value))

-- Whether the loop goes on after a call of `hashmap_set`.
abbrev pub went_on : Ptr → ℕ → Bool
went_on old errno = not ((old == null) && not (errno == errno_clear))

-- Whether a pair gets in and the merge goes on, in a map of this capacity and size, and what they are
-- then: a new key takes an entry, and more buckets when the map is more than
-- three quarters full.
abbrev pub crowded : (capacity size : ℕ) → Bool
crowded capacity size = ltb (3 * capacity) (4 * (size + 1))

abbrev pub gets_in : (capacity size : ℕ) → Alloc → (held : Bool) → Bool
gets_in capacity size (fresh, room) held =
    if held
    then true
    else if fresh == null
    then false
    else if crowded capacity size
    then room
    else true

abbrev pub next_capacity : (capacity size : ℕ) → (held : Bool) → ℕ
next_capacity capacity size held =
    if held then capacity else if crowded capacity size then capacity * 2 else capacity

abbrev pub next_size : ℕ → (held : Bool) → ℕ
next_size size held = if held then size else size + 1

-- Whether all pairs get in, one after the other, with what the allocator gives for each.
abbrev pub all_get_in : (capacity size : ℕ) → List Alloc → Cells Pair → Contents → Bool
all_get_in capacity size allocs [] f = true
all_get_in capacity size allocs ((p, (key, value)) ∷ zs) f =
    let held = is_some (f key) in
    let rest =
      all_get_in (next_capacity capacity size held) (next_size size held) (rest_allocs allocs) zs
        (update f key (some value)) in
    if gets_in capacity size (next_alloc allocs) held then rest else false

-- Whether the merge succeeds: the map first gets as many buckets as there are entries in both, if it
-- has fewer.
abbrev pub merge_done :
    (room : Bool) → List Alloc → (capacity size : ℕ) → Cells Pair → Contents → Bool
merge_done room allocs capacity size zs f =
    if ltb capacity (size + length zs)
    then if room then all_get_in (size + length zs) size allocs zs f else false
    else all_get_in capacity size allocs zs f

-- What one call leaves.
pub record Stored (m : HashMap) (xs : Cells Pair) (fresh : Ptr) (room : Bool) (key : ℕ)
    (value : Ptr) (r : SetResult) (g : Entries) : Type 0 where
  pub on : went_on r.0 r.1 ≡ gets_in m.capacity m.size (fresh, room) (holds key xs)
  pub capacity :
      went_on r.0 r.1 ≡ true → r.2.capacity ≡ next_capacity m.capacity m.size (holds key xs)
  pub size : went_on r.0 r.1 ≡ true → r.2.size ≡ next_size m.size (holds key xs)
  pub cells : Cells Pair
  pub map : IsMap g r.2 cells
  pub stored : went_on r.0 r.1 ≡ true → contents cells ≡ update (contents xs) key (some value)
  pub inside : (a : Ptr) → a ∉ xs → a ≢ fresh → a ∉ cells

new-on :
    (more room : Bool) (old : Ptr) (errno : ℕ)
    → old ≡ null
    → errno ≡ (if more then (if room then errno_clear else enomem) else errno_clear)
    → went_on old errno ≡ (if more then room else true)
new-on false room old errno no_old is = rw (no_old, is) refl
new-on true false old errno no_old is = rw (no_old, is) refl
new-on true true old errno no_old is = rw (no_old, is) refl

new-capacity :
    (more room : Bool) (c : ℕ)
    → (if more then room else true) ≡ true
    → (if more then (if room then c * 2 else c) else c) ≡ (if more then c * 2 else c)
new-capacity false room c e = refl
new-capacity true false c e = cc
new-capacity true true c e = refl

pub set-Stored :
    (h : Entries) (m : HashMap) {xs : Cells Pair} (key : ℕ) (value : Ptr) (fresh : Ptr)
    (room : Bool)
    → IsMap h m xs
    → (fresh ≢ null → h fresh ≡ none)
    → Returns (Stored m xs fresh room key value) (set fresh room m key value h)
set-Stored h m {xs} key value fresh room is unused =
    Returns-mono (set-SetDone h m key value is fresh room unused) λ (old, errno, m') g d.
      elim (Bool-cases (holds key xs)) [
        | inl hit ↦
            let (was, clear, same, is') : (old ≡ value_of key xs)
                × (errno ≡ errno_clear)
                × (m' ≡ m)
                × IsMap g m (assign key value xs) =
              rw hit at d in
            record {
              on = rw (clear, hit) (ground arith);
              capacity = λ _. rw (same, hit) refl;
              size = λ _. rw (same, hit) refl;
              cells = assign key value xs;
              map = rw same is';
              stored = λ _. contents-assign xs key value hit;
              inside = λ a o ne. rw (has-assign a key value xs) o;
            }
        | inr miss ↦ elim (Bool-cases (fresh == null)) [
          | inl failed ↦
              let (e, e') : ((old, errno, m') ≡ (null, enomem, m)) × (g ≡ h) =
                rw (miss, failed) at d in
              let same : m' ≡ m = ap (λ r. r.2) e in
              let no_old : old ≡ null = ap (λ r. r.0) e in
              let no_room : errno ≡ enomem = ap (λ r. r.1) e in
              record {
                on = rw (no_old, no_room, miss, failed) refl;
                capacity = λ on. absurd (ground (arith, rw (no_old, no_room) at on));
                size = λ on. absurd (ground (arith, rw (no_old, no_room) at on));
                cells = xs;
                map = rw (same, e') is;
                stored = λ on. absurd (ground (arith, rw (no_old, no_room) at on));
                inside = λ a o ne. o;
              }
          | inr got ↦
              let added : Added h m xs fresh room key value (old, errno, m') g =
                rw (miss, got) at d in
              record {
                on =
                    rw (miss, got)
                      (new-on (crowded m.capacity m.size) room old errno added.old added.errno);
                capacity = λ on. rw miss (
                    added.capacity
                    ∙ new-capacity (crowded m.capacity m.size) room m.capacity (
                        sym
                          (new-on (crowded m.capacity m.size) room old errno added.old added.errno)
                        ∙ on));
                size = λ _. rw miss added.size;
                cells = xs ++ (fresh, (key, value)) ∷ [];
                map = added.map;
                stored = λ _. contents-snoc xs key value fresh miss;
                inside = λ a o ne. ground (arith, has-append a xs ((fresh, (key, value)) ∷ []));
              }
        ]
      ]
