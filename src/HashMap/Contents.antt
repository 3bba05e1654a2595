-- ===== src/HashMap/Contents.antt =====
-- The abstract map: what is stored under a key, whatever the order and the places of the entries.
use mathlib.Core.Path.{fun_ext, subst}
use rf_gateway.Base.{
  ℕ, ◌≡◌, ◌≢◌, refl, sym, Bool, true, false, Bool-cases, inl, inr, Option, none, some, [], ◌∷◌,
  ◌++◌, arith, ◌==◌, ==_iff, ==_refl, if◌then◌else◌, Ptr, null,
}
use rf_gateway.Links.{Cells, ne_of_mem}
use rf_gateway.Links.Split.{less, less-absent}
use rf_gateway.HashMap.View.{Pair, addr_of, value_of, value_of-null, holds, DistinctKeys}
use rf_gateway.HashMap.Insert.{holds-snoc}
use rf_gateway.HashMap.Assign.{assign, holds-assign, value_of-assign, has-addr_of}
use rf_gateway.HashMap.Set.{value_of-snoc}
use rf_gateway.HashMap.Removal.Walk.{Distinct}
use rf_gateway.HashMap.Removal.Found.{value_of-less}

abbrev pub Contents : Type 0
Contents = ℕ → Option Ptr

abbrev pub nothing : Contents
nothing key = none

abbrev pub update : Contents → ℕ → Option Ptr → Contents
update f key o q = if q == key then o else f q

-- What `hashmap_get` and `hashmap_contains` say of an abstract map.
abbrev pub or_null : Option Ptr → Ptr
or_null none = null
or_null (some v) = v

abbrev pub is_some : Option Ptr → Bool
is_some none = false
is_some (some v) = true

-- The contents of the entries `xs`.
abbrev pub contents : Cells Pair → Contents
contents xs key = if holds key xs then some (value_of key xs) else none

pub or_null-contents : (xs : Cells Pair) (key : ℕ) → or_null (contents xs key) ≡ value_of key xs
or_null-contents xs key = elim (Bool-cases (holds key xs)) [
  | inl hit ↦ rw hit refl
  | inr miss ↦ rw (miss, value_of-null key xs miss) refl
]

pub is_some-contents : (xs : Cells Pair) (key : ℕ) → is_some (contents xs key) ≡ holds key xs
is_some-contents xs key = elim (Bool-cases (holds key xs)) [
  | inl hit ↦ rw hit refl
  | inr miss ↦ rw miss refl
]

module _ (xs : Cells Pair) (key : ℕ) (value : Ptr) where
  pub contents-assign :
      holds key xs ≡ true → contents (assign key value xs) ≡ update (contents xs) key (some value)
  contents-assign hit = fun_ext λ q. elim (Bool-cases (q == key)) [
    | inl same ↦
        let e : q ≡ key = (==_iff q key).0 same in
        rw (holds-assign q key value xs, value_of-assign q key value xs hit, same, e, hit) refl
    | inr other ↦ rw (holds-assign q key value xs, value_of-assign q key value xs hit, other) refl
  ]

  pub contents-snoc :
      (fresh : Ptr)
      → holds key xs ≡ false
      → contents (xs ++ (fresh, (key, value)) ∷ []) ≡ update (contents xs) key (some value)
  contents-snoc fresh miss =
      fun_ext λ q.
        ground (arith, holds-snoc q xs fresh key value, value_of-snoc q xs fresh key value miss)

holds-less :
    (q key : ℕ) (t : Ptr) (xs : Cells Pair)
    → Distinct xs
    → DistinctKeys xs
    → holds key xs ≡ true
    → addr_of key xs ≡ t
    → holds q (less t xs) ≡ (if q == key then false else holds q xs)
holds-less q key t [] d d' hit at = cc
holds-less q key t ((p, kv) ∷ xs) d d' hit at = elim (Bool-cases (kv.0 == key)) [
  | inl here ↦
      let same : p ≡ t = rw here at at in
      let absent : holds key xs ≡ false = rw ((==_iff kv.0 key).0 here) at d'.0 in
      rw (same, ==_refl t, less-absent t xs (rw same at d.0))
        (elim (Bool-cases (q == key)) [
          | inl asked ↦
              rw asked (subst (λ j. holds j xs ≡ false) (sym ((==_iff q key).0 asked)) absent)
          | inr other ↦ ground arith
        ])
  | inr there ↦
      let hit' : holds key xs ≡ true = rw there at hit in
      let at' : addr_of key xs ≡ t = rw there at at in
      let ne : p ≢ t = ne_of_mem t p xs (has-addr_of key t xs hit' at') d.0 in
      let rest = holds-less q key t xs d.1 d'.1 hit' at' in ground arith
]

pub contents-less :
    (key : ℕ) (xs : Cells Pair)
    → Distinct xs
    → DistinctKeys xs
    → holds key xs ≡ true
    → contents (less (addr_of key xs) xs) ≡ update (contents xs) key none
contents-less key xs d d' hit = fun_ext λ q.
    let gone = holds-less q key (addr_of key xs) xs d d' hit refl in
    let kept = value_of-less q key (addr_of key xs) xs d d' hit refl in
    elim (Bool-cases (q == key)) [
      | inl same ↦ rw (gone, same) refl
      | inr other ↦ rw (gone, kept, other) refl
    ]

-- Taking out a key that is not there changes nothing.
pub update-absent :
    (key : ℕ) (xs : Cells Pair) → holds key xs ≡ false → update (contents xs) key none ≡ contents xs
update-absent key xs miss = fun_ext λ q. elim (Bool-cases (q == key)) [
  | inl same ↦ let e : q ≡ key = (==_iff q key).0 same in rw (same, e, miss) refl
  | inr other ↦ rw other refl
]
