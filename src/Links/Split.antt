-- ===== src/Links/Split.antt =====
-- A doubly linked segment without one of its nodes.
use rf_gateway.Base.{
  ◌≡◌, refl, Bool-cases, inl, inr, ==_iff, [], ◌∷◌, ◌++◌, arith, ◌==◌, if◌then◌else◌, Ptr, Points,
}
use rf_gateway.Links.{link, Nodes, Cells, ◌∈◌, ◌∉◌, Seg, nil, cons}

-- The cells that are not at `t`.
abbrev pub less : {V : Type 0} → Ptr → Cells V → Cells V
less t [] = []
less t ((p, v) ∷ xs) = if p == t then less t xs else (p, v) ∷ less t xs

pub less-absent : {V : Type 0} (t : Ptr) (xs : Cells V) → t ∉ xs → less t xs ≡ xs
less-absent t [] out = refl
less-absent t ((p, v) ∷ xs) out = ground (arith, less-absent t xs)

pub has-less : {V : Type 0} (a t : Ptr) (xs : Cells V) → a ∈ less t xs → a ∈ xs
has-less a t [] i = i
has-less a t ((p, v) ∷ xs) i = ground (arith, has-less a t xs)

-- The segment on both sides of the node at `t`.
pub record Split {V : Type 0} (h : Nodes V) (last stop before p t : Ptr) (xs : Cells V)
    : Type 0 where
  pub front : Cells V
  pub back : Cells V
  pub item : V
  pub mid : Ptr
  pub next : Ptr
  pub splits : less t xs ≡ front ++ back
  pub points : Points h t (link item mid next)
  pub left : Seg h mid t before p front
  pub right : Seg h last stop t next back
  pub out_front : t ∉ front
  pub out_back : t ∉ back
  pub apart : (a : Ptr) → a ∈ front → a ∉ back
  pub inside : (a : Ptr) → a ∈ front → a ∈ xs
  pub inside' : (a : Ptr) → a ∈ back → a ∈ xs

pub split :
    {V : Type 0} {h : Nodes V} {last stop before p : Ptr} {xs : Cells V} (t : Ptr)
    → Seg h last stop before p xs
    → t ∈ xs
    → Split h last stop before p t xs
split t nil i = absurd (cc)
split {h} {last} {stop} {before} t (cons {p} {q} {v} {xs} e out s) i = elim (Bool-cases (p == t)) [
  | inl here ↦
      let same : p ≡ t = (==_iff p t).0 here in
      record {
        front = [];
        back = xs;
        item = v;
        mid = before;
        next = q;
        splits = rw (here, less-absent t xs (rw same at out)) refl;
        points = rw same at e;
        left = rw (← same) nil;
        right = rw same at s;
        out_front = refl;
        out_back = rw same at out;
        apart = λ a i. absurd (cc);
        inside = λ a i. absurd (cc);
        inside' = λ a i. ground arith;
      }
  | inr there ↦
      let r = split t s (ground arith) in
      record {
        front = (p, v) ∷ r.front;
        back = r.back;
        item = r.item;
        mid = r.mid;
        next = r.next;
        splits = rw (there, r.splits) refl;
        points = r.points;
        left = cons e (ground (arith, r.inside p)) r.left;
        right = r.right;
        out_front = ground (arith, r.out_front);
        out_back = r.out_back;
        apart = λ a i. ground (arith, r.apart a, r.inside' a);
        inside = λ a i. ground (arith, r.inside a);
        inside' = λ a i. ground (arith, r.inside' a);
      }
]
