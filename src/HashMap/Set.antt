-- ===== src/HashMap/Set.antt =====
-- `hashmap_set` against the entries that the map stands for, on each of its branches.
use rf_gateway.Base.{
  ℕ, ◌+◌, ◌*◌, ◌%◌, ◌≡◌, refl, ◌≢◌, Bool, true, false, none, [], ◌∷◌, ◌++◌, arith, ltb,
  if◌then◌else◌, ◌==◌, ==_iff, Bool-cases, inl, inr, Ptr, null, Points-not_null, load-ok, modify-ok,
  ok, pure, ◌>>=◌, ◌∙◌, ne→==-false, Returns, returns, Returns-bind, Returns-mono,
}
use rf_gateway.Links.{Cells, has-append, ◌∉◌}
use rf_gateway.HashMap.{
  Entries, HashMap, SetResult, errno_clear, enomem, overloaded, set_new, set, get, resize,
}
use rf_gateway.HashMap.Lookup.{find-addr_of, get-value_of, bucket_of-ok}
use rf_gateway.HashMap.Resize.{resize-Resized}
use rf_gateway.HashMap.Insert.{link_entry-IsMap}
use rf_gateway.HashMap.Assign.{assign, value_of-assign, IsMap-assign}
use rf_gateway.HashMap.View.{Pair, addr_of-null, value_of, holds, IsMap, entry-of}

-- The map asks for more buckets when one more entry comes.
abbrev pub fills_up : HashMap → Bool
fills_up m = ltb (3 * m.capacity) (4 * (m.size + 1))

-- What `hashmap_set` with a new key and an address for the entry ends in.
pub record Added (h : Entries) (m : HashMap) (xs : Cells Pair) (fresh : Ptr) (room : Bool) (key : ℕ)
    (value : Ptr) (r : SetResult) (g : Entries) : Type 0 where
  pub old : r.0 ≡ null
  pub errno : r.1 ≡ (if fills_up m then (if room then errno_clear else enomem) else errno_clear)
  pub map : IsMap g r.2 (xs ++ (fresh, (key, value)) ∷ [])
  pub capacity :
      r.2.capacity
      ≡ (if fills_up m then (if room then m.capacity * 2 else m.capacity) else m.capacity)
  pub size : r.2.size ≡ m.size + 1
  pub outside : (a : Ptr) → a ∉ xs → a ≢ fresh → g a ≡ h a

set_new-Added :
    (h : Entries) (m : HashMap) {xs : Cells Pair} (fresh : Ptr) (room : Bool) (key : ℕ)
    (value : Ptr)
    → fresh ≢ null
    → h fresh ≡ none
    → IsMap h m xs
    → holds key xs ≡ false
    → Returns
        (Added h m xs fresh room key value)
        (set_new fresh room m (key % m.capacity) key value h)
unfolding set_new
set_new-Added h m {xs} fresh room key value nz unused is absent =
    Returns-bind (link_entry-IsMap h m fresh key value nz unused is absent)
      λ m' g (is', cap, size, kept). elim (Bool-cases (overloaded m')) [
        | inl over ↦ rw over (grow room m' g is' cap size kept over)
        | inr under ↦
            let calm : fills_up m ≡ false = rw (← cap, ← size) under in
            rw under (
              returns (record {
                old = refl;
                errno = rw calm;
                map = is';
                capacity = rw calm cap;
                size = size;
                outside = kept;
              }))
      ]
  where
    grow :
        (room : Bool) (m' : HashMap) (g : Entries)
        → IsMap g m' (xs ++ (fresh, (key, value)) ∷ [])
        → m'.capacity ≡ m.capacity
        → m'.size ≡ m.size + 1
        → ((a : Ptr) → a ∉ xs → a ≢ fresh → g a ≡ h a)
        → overloaded m' ≡ true
        → Returns (Added h m xs fresh room key value) (
            (do
              (grown, m'') ← resize room m' (m'.capacity * 2)
              pure (null, (if grown then errno_clear else enomem), m''))
              g)
    grow false m' g is' cap size kept over =
        let full : fills_up m ≡ true = rw (← cap, ← size) over in
        returns (record {
          old = refl;
          errno = rw full;
          map = is';
          capacity = rw full cap;
          size = size;
          outside = kept;
        })
    grow true m' g is' cap size kept over =
        let full : fills_up m ≡ true = rw (← cap, ← size) over in
        Returns-bind
          (resize-Resized g m' (m'.capacity * 2) (omega (arith, is'.wide)) is'.order is'.counted
            is'.keys)
          λ r g' d. returns (record {
            old = refl;
            errno = rw (d.done, full);
            map = d.map;
            capacity = rw (full, ← cap) d.capacity;
            size = omega (arith, d.map.counted, is'.counted, size);
            outside = λ a o ne.
                let apart : a ∉ (xs ++ (fresh, (key, value)) ∷ []) =
                  ground (arith, has-append a xs ((fresh, (key, value)) ∷ [])) in
                d.outside a apart ∙ kept a o ne;
          })

-- What `hashmap_set` ends in: an overwritten value, an entry more, or no change for want of memory.
abbrev pub SetDone :
    Entries → HashMap → Cells Pair → Ptr → Bool → ℕ → Ptr → SetResult → Entries → Type 0
SetDone h m xs fresh room key value r g =
    if holds key xs
    then (r.0 ≡ value_of key xs) × (r.1 ≡ errno_clear) × (r.2 ≡ m) × IsMap g m (assign key value xs)
    else if fresh == null
    then (r ≡ (null, enomem, m)) × (g ≡ h)
    else Added h m xs fresh room key value r g

module _ (h : Entries) (m : HashMap) {xs : Cells Pair} (key : ℕ) (value : Ptr)
    (is : IsMap h m xs) where
  set-assign :
      (fresh : Ptr) (room : Bool)
      → holds key xs ≡ true
      → Returns
          (λ r g.
            (r.0 ≡ value_of key xs)
            × (r.1 ≡ errno_clear)
            × (r.2 ≡ m)
            × IsMap g m (assign key value xs))
          (set fresh room m key value h)
  unfolding set
  set-assign fresh room hit =
      let (n, at, has_key, old) = entry-of key is.order hit in
      rw (find-addr_of is key, Points-not_null at, load-ok at, modify-ok at)
        (returns (old, refl, refl, IsMap-assign is key value hit at has_key))

  pub set-no_memory :
      (room : Bool) → holds key xs ≡ false → set null room m key value h ≡ ok (null, enomem, m) h
  unfolding set
  set-no_memory room miss = rw (find-addr_of is key, addr_of-null key xs miss)

  pub set-Added :
      (fresh : Ptr) (room : Bool)
      → fresh ≢ null
      → h fresh ≡ none
      → holds key xs ≡ false
      → Returns (Added h m xs fresh room key value) (set fresh room m key value h)
  unfolding set
  set-Added fresh room nz unused miss =
      rw
        (
          find-addr_of is key,
          addr_of-null key xs miss,
          ne→==-false fresh null nz,
          bucket_of-ok key m.capacity h is.wide,
        )
        (set_new-Added h m fresh room key value nz unused is miss)

  -- `hashmap_set` returns the value that it overwrites, or adds an entry at the end, growing the
  -- table when it is more than three quarters full. Without memory for an entry it sets `errno` and
  -- changes nothing; without memory to grow it sets `errno`, and the entry is added all the same.
  pub set-SetDone :
      (fresh : Ptr) (room : Bool)
      → (fresh ≢ null → h fresh ≡ none)
      → Returns (SetDone h m xs fresh room key value) (set fresh room m key value h)
  set-SetDone fresh room unused = elim (Bool-cases (holds key xs)) [
    | inl hit ↦ Returns-mono (set-assign fresh room hit) (λ r g d. rw hit d)
    | inr miss ↦ elim (Bool-cases (fresh == null)) [
      | inl failed ↦
          rw ((==_iff fresh null).0 failed, set-no_memory room miss)
            (returns {s = h} (rw miss (refl, refl)))
      | inr got ↦
          let nz : fresh ≢ null = ground arith in
          Returns-mono (set-Added fresh room nz (unused nz) miss) (λ r g d. rw (miss, got) d)
    ]
  ]

pub value_of-snoc :
    (q : ℕ) (xs : Cells Pair) (p key : ℕ) (value : Ptr)
    → holds key xs ≡ false
    → value_of q (xs ++ (p, (key, value)) ∷ []) ≡ (if q == key then value else value_of q xs)
value_of-snoc q [] p key value e = ground arith
value_of-snoc q ((a, (k, v)) ∷ xs) p key value e = ground (arith, value_of-snoc q xs p key value)

-- After `hashmap_set` with an address for an entry, `hashmap_get` returns the value under the key,
-- and under any other key what it returned before, whether or not the table grew.
pub get-set :
    (h : Entries) (m : HashMap) {xs : Cells Pair} (fresh : Ptr) (room : Bool) (key : ℕ)
    (value : Ptr)
    → fresh ≢ null
    → h fresh ≡ none
    → IsMap h m xs
    → Returns
        (λ r g. (q : ℕ) → get r.2 q g ≡ ok (if q == key then value else value_of q xs) g)
        (set fresh room m key value h)
get-set h m {xs} fresh room key value nz unused is = elim (Bool-cases (holds key xs)) [
  | inl hit ↦
      Returns-mono (set-assign h m key value is fresh room hit)
        λ r g (_, _, same, is') q. rw (same, get-value_of is' q, value_of-assign q key value xs hit)
  | inr miss ↦
      Returns-mono (set-Added h m key value is fresh room nz unused miss)
        λ r g a q. rw (get-value_of a.map q, value_of-snoc q xs fresh key value miss)
]
