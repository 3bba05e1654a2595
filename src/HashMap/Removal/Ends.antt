-- ===== src/HashMap/Removal/Ends.antt =====
-- The neighbours of an entry that `hashmap_remove` takes out, in the order and in the chain.
use mathlib.Core.Path.{subst}
use rf_gateway.Base.{
  ℕ, refl, ◌≢◌, Bool-cases, inl, inr, arith, ◌==◌, ==_iff, Ptr, null, Points, sym,
}
use rf_gateway.Links.{Link, Nodes, Cells, has, ◌∈◌, ◌∉◌, Seg, nil, cons, retarget}
use rf_gateway.HashMap.{HEntry, Entries}
use rf_gateway.HashMap.Removal.Edit.{Live}
use rf_gateway.HashMap.Removal.Walk.{prev_of, prev_of-or}
use rf_gateway.HashMap.View.{Pair, orders, Chain, last, more, entry_at}

-- The ends of the two sides of a node are null pointers or nodes.
pub left_end :
    {h : Nodes Pair} {mid t p : Ptr} {front : Cells Pair}
    → Seg h mid t null p front
    → mid ≢ null
    → (l : Link Pair) × Points h mid l
left_end nil nz = absurd (nz refl)
left_end (cons e out s) nz = let r = retarget null e out s in (r.node, r.points)

pub right_end :
    {h : Nodes Pair} {tail t next : Ptr} {back : Cells Pair}
    → Seg h tail null t next back
    → next ≢ null
    → (l : Link Pair) × Points h next l
right_end nil nz = absurd (nz refl)
right_end (cons e out s) nz = (_, e)

pub Live-orders :
    (h : Entries) (a : Ptr) → (a ≢ null → (l : Link Pair) × Points (orders h) a l) → Live h a
Live-orders h a ends nz = let (l, e) = ends nz in let (n, at, _) = entry_at e in (n, at)

pub Chain-Points :
    {h : Entries} {p : Ptr} {zs : Cells Pair} (a : Ptr)
    → Chain h p zs
    → a ∈ zs
    → (n : HEntry) × Points h a n
Chain-Points a last inside = cc
Chain-Points {h} a (more {p} e s) inside = elim (Bool-cases (a == p)) [
  | inl here ↦
      subst (λ x. (n : HEntry) × Points h x n) (sym ((==_iff a p).0 here)) (e.node, e.points)
  | inr there ↦ Chain-Points a s (ground arith)
]

pub Chain-null : {h : Entries} {p : Ptr} {zs : Cells Pair} → Chain h p zs → null ∉ zs
Chain-null {zs} s = elim (Bool-cases (has null zs)) [
  | inl inside ↦ let (n, e) = Chain-Points null s inside in absurd (e.ne_null refl)
  | inr out ↦ out
]

pub prev_of-Live :
    {h : Entries} {p : Ptr} {zs : Cells Pair} (key : ℕ)
    → Chain h p zs
    → Live h (prev_of key null zs)
prev_of-Live {zs} key s nz = elim (prev_of-or key null zs) [
  | inl nothing ↦ absurd (nz nothing)
  | inr inside ↦ Chain-Points (prev_of key null zs) s inside
]
