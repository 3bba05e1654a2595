-- ===== src/HashMap/Removal/Fewer.antt =====
-- The entries of a map without the one at an address, and their buckets.
use rf_gateway.Base.{
  ℕ, suc, ◌%◌, ◌≡◌, refl, true, false, Bool-cases, inl, inr, ◌⊎◌, [], ◌∷◌, arith, ◌==◌, ==_iff,
  if◌then◌else◌, length, Ptr, ap,
}
use rf_gateway.Links.{Nodes, Cells, ◌∈◌, ◌∉◌, Seg, nil, cons, ne_of_mem}
use rf_gateway.Links.Split.{less, less-absent}
use rf_gateway.HashMap.Removal.Walk.{Distinct}
use rf_gateway.HashMap.View.{Pair, holds, bucket, DistinctKeys}

pub Seg-Distinct :
    {h : Nodes Pair} {last stop before p : Ptr} {xs : Cells Pair}
    → Seg h last stop before p xs
    → Distinct xs
Seg-Distinct nil = tt
Seg-Distinct (cons e out s) = (out, Seg-Distinct s)

pub Distinct-bucket :
    (c i : ℕ) (xs acc : Cells Pair)
    → Distinct xs
    → Distinct acc
    → ((a : Ptr) → a ∈ xs → a ∉ acc)
    → Distinct (bucket c i xs acc)
Distinct-bucket c i [] acc d d' apart = d'
Distinct-bucket c i ((p, kv) ∷ xs) acc d d' apart = elim (Bool-cases (kv.0 % c == i)) [
  | inl here ↦ rw here (
      Distinct-bucket c i xs ((p, kv) ∷ acc) d.1 (apart p (ground arith), d')
        λ a inside. ground (arith, apart a, ne_of_mem a p xs inside d.0))
  | inr there ↦ rw there (Distinct-bucket c i xs acc d.1 d' λ a inside. apart a (ground arith))
]

pub bucket-less :
    (c i t : ℕ) (xs acc : Cells Pair)
    → bucket c i (less t xs) (less t acc) ≡ less t (bucket c i xs acc)
bucket-less c i t [] acc = refl
bucket-less c i t ((p, kv) ∷ xs) acc =
    ground (arith, bucket-less c i t xs ((p, kv) ∷ acc), bucket-less c i t xs acc)

pub holds-bucket :
    (c key : ℕ) (xs acc : Cells Pair)
    → holds key (bucket c (key % c) xs acc) ≡ (if holds key xs then true else holds key acc)
holds-bucket c key [] acc = refl
holds-bucket c key ((p, kv) ∷ xs) acc =
    ground (arith, holds-bucket c key xs ((p, kv) ∷ acc), holds-bucket c key xs acc)

-- The key of the entry at an address.
abbrev key_at : Ptr → Cells Pair → ℕ
key_at a [] = 0
key_at a ((p, kv) ∷ xs) = if a == p then kv.0 else key_at a xs

key_at-bucket :
    (a c i : ℕ) (xs acc : Cells Pair)
    → Distinct xs
    → a ∈ bucket c i xs acc
    → (a ∈ acc) ⊎ ((a ∈ xs) × ((key_at a xs % c == i) ≡ true))
key_at-bucket a c i [] acc d inside = inl inside
key_at-bucket a c i ((p, kv) ∷ xs) acc d inside = elim (Bool-cases (kv.0 % c == i)) [
  | inl here ↦ elim (key_at-bucket a c i xs ((p, kv) ∷ acc) d.1 (rw here at inside)) [
    | inl old ↦ elim (Bool-cases (a == p)) [
      | inl new ↦ inr (ground arith, rw new here)
      | inr other ↦ inl (ground arith)
    ]
    | inr (late, home) ↦
        let ne : (a == p) ≡ false = ground (arith, ne_of_mem a p xs late d.0) in
        inr (ground arith, rw ne home)
  ]
  | inr there ↦ elim (key_at-bucket a c i xs acc d.1 (rw there at inside)) [
    | inl old ↦ inl old
    | inr (late, home) ↦
        let ne : (a == p) ≡ false = ground (arith, ne_of_mem a p xs late d.0) in
        inr (ground arith, rw ne home)
  ]
]

-- An entry is in one bucket only.
pub one_bucket :
    (a c i j : ℕ) (xs : Cells Pair)
    → Distinct xs
    → a ∈ bucket c i xs []
    → a ∈ bucket c j xs []
    → i ≡ j
one_bucket a c i j xs d in_i in_j = elim (key_at-bucket a c i xs [] d in_i) [
  | inl none ↦ absurd (cc)
  | inr (_, home) ↦ elim (key_at-bucket a c j xs [] d in_j) [
    | inl none ↦ absurd (cc)
    | inr (_, home') ↦ ground arith
  ]
]

pub length-less :
    (t : Ptr) (xs : Cells Pair) → Distinct xs → t ∈ xs → suc (length (less t xs)) ≡ length xs
length-less t [] d inside = cc
length-less t ((p, kv) ∷ xs) d inside = elim (Bool-cases (p == t)) [
  | inl here ↦ rw (here, less-absent t xs (rw ((==_iff p t).0 here) at d.0)) refl
  | inr there ↦ rw there (ap suc (length-less t xs d.1 (ground arith)))
]

holds-less : (q : ℕ) (t : Ptr) (xs : Cells Pair) → holds q xs ≡ false → holds q (less t xs) ≡ false
holds-less q t [] e = refl
holds-less q t ((p, kv) ∷ xs) e = ground (arith, holds-less q t xs)

pub DistinctKeys-less : (t : Ptr) (xs : Cells Pair) → DistinctKeys xs → DistinctKeys (less t xs)
DistinctKeys-less t [] d = tt
DistinctKeys-less t ((p, kv) ∷ xs) d = elim (Bool-cases (p == t)) [
  | inl here ↦ rw here (DistinctKeys-less t xs d.1)
  | inr there ↦ rw there (holds-less kv.0 t xs d.0, DistinctKeys-less t xs d.1)
]
