-- ===== src/HashMap/Merge/Fresh.antt =====
-- What the allocator gives to the rounds of `hashmap_merge`: unused addresses, each once.
use rf_gateway.Base.{
  ◌≡◌, ◌≢◌, refl, ◌∙◌, Bool, true, false, Bool-cases, inl, inr, none, List, [], ◌∷◌, arith, ◌==◌,
  ==_iff, if◌then◌else◌, Ptr, null,
}
use rf_gateway.Links
use rf_gateway.Links.{Link, link, Cells, Seg, nil, cons, has, has-append, ◌∈◌, ◌∉◌, ne_of_mem}
use rf_gateway.HashMap.{Entries, HashMap}
use rf_gateway.HashMap.Bulk.{Alloc, next_alloc, rest_allocs}
use rf_gateway.HashMap.View.{Pair, IsMap, orders}

-- What the allocator promises: each address is null, or unused and given once.
abbrev pub among : Ptr → List Alloc → Bool
among a [] = false
among a ((b, room) ∷ allocs) = if a == b then true else among a allocs

abbrev pub Unused : Entries → List Alloc → Type 0
Unused h [] = Unit {0}
Unused h ((p, room) ∷ allocs) =
    (p ≢ null → (h p ≡ none) × (among p allocs ≡ false)) × Unused h allocs

null-absent :
    (h : Entries) {lst before p : Ptr} {zs : Cells Pair}
    → Seg (orders h) lst null before p zs
    → null ∉ zs
null-absent h nil = refl
null-absent h (cons e out s) = ground (arith, e.ne_null, null-absent h s)

pub fresh-absent :
    (fresh : Ptr) (h : Entries) {lst before p : Ptr} {zs : Cells Pair}
    → Seg (orders h) lst null before p zs
    → (fresh ≢ null → h fresh ≡ none)
    → fresh ∉ zs
fresh-absent fresh h s unused = elim (Bool-cases (fresh == null)) [
  | inl zero_one ↦ let e : fresh ≡ null = (==_iff fresh null).0 zero_one in rw e (null-absent h s)
  | inr live ↦
      let nz : fresh ≢ null = ground arith in
      Links.not-mem_of_none fresh s (unfold orders in rw (unused nz))
]

pub Unused-kept :
    {h g : Entries} (fresh : Ptr) {m : HashMap} {xs : Cells Pair} (allocs : List Alloc)
    → IsMap h m xs
    → ((a : Ptr) → a ∉ xs → a ≢ fresh → g a ≡ h a)
    → (fresh ≢ null → among fresh allocs ≡ false)
    → Unused h allocs
    → Unused g allocs
Unused-kept fresh [] is kept once unused = tt
Unused-kept {h} fresh ((p, room) ∷ allocs) is kept once (first, rest) = (
  λ nz.
      let (free, only) = first nz in
      let out = fresh-absent p h is.order (λ _. free) in
      let ne : p ≢ fresh = λ same. ground (arith, same, once (λ z. nz (same ∙ z))) in
      (kept p out ne ∙ free, only),
  Unused-kept fresh allocs is kept (λ nz. ground (arith, once nz)) rest,
)

pub next_alloc-Unused :
    (h : Entries) (allocs : List Alloc)
    → Unused h allocs
    → (next_alloc allocs).0 ≢ null
    → (h (next_alloc allocs).0 ≡ none) × (among (next_alloc allocs).0 (rest_allocs allocs) ≡ false)
next_alloc-Unused h [] unused nz = absurd (nz refl)
next_alloc-Unused h (a ∷ allocs) unused nz = unused.0 nz

pub rest_allocs-Unused :
    (h : Entries) (allocs : List Alloc) → Unused h allocs → Unused h (rest_allocs allocs)
rest_allocs-Unused h [] unused = tt
rest_allocs-Unused h (a ∷ allocs) unused = unused.1
