-- ===== src/HashMap/Removal/Found.antt =====
-- `hashmap_remove` against the entries that the map stands for.
use mathlib.Core.Path.{subst}
use rf_gateway.Base.{
  ℕ, ◌+◌, ◌%◌, ◌≡◌, refl, ◌≢◌, true, false, Bool-cases, inl, inr, none, [], ◌∷◌, arith, ◌==◌,
  ==_iff, ==_refl, if◌then◌else◌, Returns, returns, Returns-mono, Ptr, null, ◌∙◌, sym,
}
use rf_gateway.Links.{Cells, ne_of_mem}
use rf_gateway.Links.Split.{less, less-absent}
use rf_gateway.HashMap.{Entries, HashMap, remove}
use rf_gateway.HashMap.Assign.{has-addr_of}
use rf_gateway.HashMap.Removal.Walk.{Distinct, remove_loop-found}
use rf_gateway.HashMap.View.{Pair, addr_of, value_of, value_of-null, holds, DistinctKeys, IsMap}
use rf_gateway.HashMap.Removal.Bridge.{remove-absent, remove-hit, home, fuel, holds-home}

-- What `hashmap_remove` ends in.
abbrev pub Removed : Entries → HashMap → Cells Pair → ℕ → Ptr × HashMap → Entries → Type 0
Removed h m xs key r g =
    if holds key xs
    then (r.0 ≡ value_of key xs)
      × IsMap g r.1 (less (addr_of key xs) xs)
      × (g (addr_of key xs) ≡ none)
    else (r ≡ (null, m)) × (g ≡ h)

module _ {h : Entries} {m : HashMap} {xs : Cells Pair} (is : IsMap h m xs) (key : ℕ) where
  -- `hashmap_remove` returns the value under the key and gives its entry back; the others stay, in
  -- their order, in a well-formed map. Without such a key it returns null and changes nothing.
  pub remove-Removed : Returns (Removed h m xs key) (remove m key h)
  remove-Removed = elim (Bool-cases (holds key xs)) [
    | inr miss ↦ rw (remove-absent is key miss) (returns {s = h} (rw miss (refl, refl)))
    | inl hit ↦
        let (n, at, runs) =
          remove_loop-found m key (key % m.capacity) (m.size + 1) null (home is key)
            (holds-home is key ∙ hit) (fuel is key) in
        Returns-mono (remove-hit is key hit n at runs) λ r g d. rw hit d
  ]

pub value_of-less :
    (q key : ℕ) (t : Ptr) (xs : Cells Pair)
    → Distinct xs
    → DistinctKeys xs
    → holds key xs ≡ true
    → addr_of key xs ≡ t
    → value_of q (less t xs) ≡ (if q == key then null else value_of q xs)
value_of-less q key t [] d d' hit at = cc
value_of-less q key t ((p, kv) ∷ xs) d d' hit at = elim (Bool-cases (kv.0 == key)) [
  | inl here ↦
      let same : p ≡ t = rw here at at in
      let absent : holds key xs ≡ false = rw ((==_iff kv.0 key).0 here) at d'.0 in
      rw (same, ==_refl t, less-absent t xs (rw same at d.0))
        (elim (Bool-cases (q == key)) [
          | inl asked ↦ rw asked (
              subst (λ j. value_of j xs ≡ null) (sym ((==_iff q key).0 asked))
                (value_of-null key xs absent))
          | inr other ↦ ground arith
        ])
  | inr there ↦
      let hit' : holds key xs ≡ true = rw there at hit in
      let at' : addr_of key xs ≡ t = rw there at at in
      let ne : p ≢ t = ne_of_mem t p xs (has-addr_of key t xs hit' at') d.0 in
      let rest = value_of-less q key t xs d.1 d'.1 hit' at' in ground arith
]

value_of-missing :
    (q key : ℕ) (xs : Cells Pair)
    → holds key xs ≡ false
    → value_of q xs ≡ (if q == key then null else value_of q xs)
value_of-missing q key xs miss = elim (Bool-cases (q == key)) [
  | inl asked ↦
      rw asked (
        subst (λ j. value_of j xs ≡ null) (sym ((==_iff q key).0 asked))
          (value_of-null key xs miss))
  | inr other ↦ rw other refl
]
