-- ===== src/Links.antt =====
-- Doubly linked segments over a heap of nodes that carry a payload: those of list.c, and the
-- insertion order of hashmap.c. What they stand for, and what survives the writes that the code
-- makes.
pub mod Split
pub mod Join
use mathlib.Core.Bool.{or_assoc}
use mathlib.Core.Path.{subst}
use rf_gateway.Base.{
  ◌≡◌, refl, ap, ◌≢◌, Bool, true, false, ◌||◌, Option, none, some, List, [], ◌∷◌, ◌++◌, arith, ◌==◌,
  Heap, Ptr, Points, Points-write, Points-write_ne, write,
}

-- The two links of a node and what it carries.
pub record Link (V : Type 0) : Type 0 where
  pub value : V
  pub prev : Ptr
  pub next : Ptr

abbrev pub link : {V : Type 0} → V → Ptr → Ptr → Link V
link v p n = record { value = v; prev = p; next = n }

abbrev pub Nodes : Type 0 → Type 0
Nodes V = Heap (Link V)

-- What a list stands for: address and payload of each node, in order.
abbrev pub Cells : Type 0 → Type 0
Cells V = List (Ptr × V)

abbrev pub values : {V : Type 0} → Cells V → List V
values [] = []
values ((_, v) ∷ xs) = v ∷ values xs

abbrev pub has : {V : Type 0} → Ptr → Cells V → Bool
has a [] = false
has a ((p, _) ∷ xs) = (a == p) || has a xs

infix 40 ◌∈◌ ◌∉◌
abbrev pub ◌∈◌ : {V : Type 0} → Ptr → Cells V → Type 0
a ∈ xs = has a xs ≡ true

abbrev pub ◌∉◌ : {V : Type 0} → Ptr → Cells V → Type 0
a ∉ xs = has a xs ≡ false

abbrev pub SameOutside : {V : Type 0} → Cells V → Nodes V → Nodes V → Type 0
SameOutside xs h g = (a : Ptr) → a ∉ xs → g a ≡ h a

pub has-append :
    {V : Type 0} (a : Ptr) (xs ys : Cells V) → has a (xs ++ ys) ≡ (has a xs || has a ys)
has-append a [] ys = refl
has-append a (x ∷ xs) ys = rw (has-append a xs ys, or_assoc)

pub not-mem-append : {V : Type 0} (a : Ptr) (xs ys : Cells V) → a ∉ (xs ++ ys) → (a ∉ xs) × (a ∉ ys)
not-mem-append a xs ys out = ground (arith, has-append a xs ys)

-- From `p` the `next` pointers lead through the distinct nodes `xs` to `stop`. Each `prev` points
-- to the node before, that of the first one to `before`. `last` is the last node, or `before` if
-- there is none.
pub data Seg {V : Type 0} (h : Nodes V) (last stop : Ptr) : Ptr → Ptr → Cells V → Type 0 where
  nil : Seg h last stop last stop []
  cons :
      {before p q : Ptr} {v : V} {xs : Cells V}
      → Points h p (link v before q)
      → p ∉ xs
      → Seg h last stop p q xs
      → Seg h last stop before p ((p, v) ∷ xs)

module _ {V : Type 0} {h : Nodes V} {last stop : Ptr} where
  pub frame :
      {g : Nodes V} {before p : Ptr} {xs : Cells V}
      → Seg h last stop before p xs
      → ((a : Ptr) → a ∈ xs → g a ≡ h a)
      → Seg g last stop before p xs
  frame nil same = nil
  frame (cons {p} e out s) same =
      cons (record { ne_null = e.ne_null; holds = ground (arith, same p, e.holds) }) out
        (frame s λ a i. same a (ground arith))

  pub frame-write :
      {before p : Ptr} {xs : Cells V} (a : Ptr) (c : Option (Link V))
      → Seg h last stop before p xs
      → a ∉ xs
      → Seg (write h a c) last stop before p xs
  unfolding write
  frame-write a c s out = frame s (ground arith)

  pub not-mem_of_none :
      {before p : Ptr} {xs : Cells V} (a : Ptr) → Seg h last stop before p xs → h a ≡ none → a ∉ xs
  not-mem_of_none a nil unused = refl
  not-mem_of_none a (cons e out s) unused = ground (arith, e.holds, not-mem_of_none a s unused)

  -- Two segments that meet join.
  pub append :
      {mid q : Ptr} {ys : Cells V} {before p : Ptr} {xs : Cells V}
      → Seg h mid q before p xs
      → Seg h last stop mid q ys
      → ((a : Ptr) → a ∈ xs → a ∉ ys)
      → Seg h last stop before p (xs ++ ys)
  append nil t apart = t
  append {ys} (cons {p} {xs} e out s) t apart =
      cons e (rw (has-append p xs ys, out) (apart p (ground arith)))
        (append s t λ a i. apart a (ground arith))

-- A segment whose last node `node` has a new `next`.
pub record Retargeted {V : Type 0} (h : Nodes V) (last target before p : Ptr) (v : V) (xs : Cells V)
    : Type 0 where
  pub node : Link V
  pub points : Points h last node
  pub inside : last ∈ ((p, v) ∷ xs)
  pub chain :
      Seg (write h last (some (record node { next = target }))) last target before p ((p, v) ∷ xs)

pub ne_of_mem : {V : Type 0} (a b : Ptr) (xs : Cells V) → a ∈ xs → b ∉ xs → b ≢ a
ne_of_mem a b xs i o = grind arith

-- The first node comes in its parts: `p` in two indices could not be matched.
pub retarget :
    {V : Type 0} {h : Nodes V} (target : Ptr) {last stop before p q : Ptr} {v : V} {xs : Cells V}
    → Points h p (link v before q)
    → p ∉ xs
    → Seg h last stop p q xs
    → Retargeted h last target before p v xs
retarget target {before} {p} {v} e out nil = record {
  node = _;
  points = e;
  inside = ground arith;
  chain = cons (Points-write _ (link v before target) e.ne_null) refl nil;
}
retarget target {before} {p} {v} e out (cons {p = q} {v = w} {xs} e' out' s) =
    let rest = retarget target e' out' s in
    record {
      node = rest.node;
      points = rest.points;
      inside = rw rest.inside (ground arith);
      chain =
          cons (Points-write_ne _ e (ne_of_mem _ p ((q, w) ∷ xs) rest.inside out)) out rest.chain;
    }

-- A segment, taken apart at its last node.
pub record Unsnoc {V : Type 0} (h : Nodes V) (last stop before p : Ptr) (xs : Cells V)
    : Type 0 where
  pub front : Cells V
  pub item : V
  pub prev : Ptr
  pub splits : xs ≡ front ++ (last, item) ∷ []
  pub points : Points h last (link item prev stop)
  pub chain : Seg h prev last before p front
  pub out : last ∉ front

pub unsnoc :
    {V : Type 0} {h : Nodes V} {last stop before p q : Ptr} {v : V} {xs : Cells V}
    → Points h p (link v before q)
    → p ∉ xs
    → Seg h last stop p q xs
    → Unsnoc h last stop before p ((p, v) ∷ xs)
unsnoc {v} e out nil = record {
  front = [];
  item = v;
  prev = _;
  splits = refl;
  points = e;
  chain = nil;
  out = refl;
}
unsnoc {last} {p} {v} e out (cons {p = q} {v = w} {xs} e' out' s) =
    let rest = unsnoc e' out' s in
    let moved : p ∉ (rest.front ++ (last, rest.item) ∷ []) = subst (λ ys. p ∉ ys) rest.splits out in
    let apart = not-mem-append p rest.front ((last, rest.item) ∷ []) moved in
    record {
      front = (p, v) ∷ rest.front;
      item = rest.item;
      prev = rest.prev;
      splits = ap (λ ys. (p, v) ∷ ys) rest.splits;
      points = rest.points;
      chain = cons e apart.0 rest.chain;
      out = ground (arith, rest.out);
    }
