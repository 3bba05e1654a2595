-- ===== src/LinkedList/Copy.antt =====
-- `list_concat` and `list_clone`: a push for each node of another list, until an allocation fails.
use mathlib.Core.Path.{subst}
use mathlib.Core.Bool.{false≢true}
use rf_gateway.Base.{
  ℕ, zero, suc, ◌+◌, ◌<◌, ◌≡◌, refl, ◌≢◌, Bool, true, false, Option, none, some, List, [], ◌∷◌,
  ◌++◌, arith, length, append-nil, append_assoc, if◌then◌else◌, ◌==◌, Bool-cases, ==_iff, ◌⊎◌, inl,
  inr, sym, ◌∙◌, Ptr, null, ok, Returns, returns, Returns-bind, Returns-mono, Points,
  Points-not_null, load-ok, pure, ◌>>◌,
}
use rf_gateway.LinkedList.{Handle, ListNodes, push_all, concat, clone, destroy, LNode, next_alloc}
use rf_gateway.LinkedList.Back.{push-snoc, push-null}
use rf_gateway.LinkedList.Loops.{
  copied, all_copied, AllFresh, AllFresh-same, Apart, destroy-Without,
}
use rf_gateway.Links
use rf_gateway.LinkedList.Valid.{IsList, IsFresh}
use rf_gateway.Links.{Cells, values, has, has-append, ◌∈◌, ◌∉◌, SameOutside, Seg, nil, cons}

-- What a run of pushes of `vs` onto a list with the cells `xs` ends in.
pub record Copied (h : ListNodes) (xs : Cells Ptr) (allocs vs : List Ptr) (r : Bool × Handle)
    (g : ListNodes) : Type 0 where
  pub done : r.0 ≡ all_copied allocs vs
  pub list : IsList g r.1 (xs ++ copied allocs vs)
  pub same : SameOutside (xs ++ copied allocs vs) h g

stop-Copied :
    {h : ListNodes} {l : Handle} {xs : Cells Ptr} (allocs vs : List Ptr)
    → IsList h l xs
    → copied allocs vs ≡ []
    → (b : Bool) → b ≡ all_copied allocs vs
    → Copied h xs allocs vs (b, l) h
stop-Copied {h} {l} {xs} allocs vs is e b same = record {
  done = same;
  list = rw (e, append-nil) is;
  same = λ a o. refl;
}

-- An unused address is in no list.
not-mem-snoc :
    {h : ListNodes} {l : Handle} {xs : Cells Ptr}
    → IsList h l xs
    → (b a v : Ptr) → b ≢ a
    → h b ≡ none
    → b ∉ (xs ++ (a, v) ∷ [])
not-mem-snoc {xs} is b a v ne unused =
    ground (arith, has-append b xs ((a, v) ∷ []), Links.not-mem_of_none b is.chain unused)

step-Copied :
    {h g g' : ListNodes} (a v : Ptr) (xs : Cells Ptr) (allocs vs : List Ptr) {r : Bool × Handle}
    → (a == null) ≡ false
    → SameOutside (xs ++ (a, v) ∷ []) h g
    → Copied g (xs ++ (a, v) ∷ []) allocs vs r g'
    → Copied h xs (a ∷ allocs) (v ∷ vs) r g'
step-Copied {h} {g} {g'} a v xs allocs vs {r} got same c = record {
  done = rw got c.done;
  list = rw got (subst (IsList g' r.1) regroup c.list);
  same = rw got λ b o.
      let o' : b ∉ ((xs ++ (a, v) ∷ []) ++ copied allocs vs) = rw regroup o in
      c.same b o' ∙ same b (Links.not-mem-append b (xs ++ (a, v) ∷ []) (copied allocs vs) o').0;
}
  where
    regroup : (xs ++ (a, v) ∷ []) ++ copied allocs vs ≡ xs ++ (a, v) ∷ copied allocs vs
    regroup = append_assoc xs ((a, v) ∷ []) (copied allocs vs)

push_all-null :
    (k : ℕ) (allocs : List Ptr) {h : ListNodes} {l : Handle} {p : Ptr} {n : LNode}
    → Points h p n
    → next_alloc allocs ≡ null
    → push_all (suc k) allocs l p h ≡ ok (false, l) h
unfolding push_all
push_all-null k allocs {h} {l} {n} e none_left =
    rw (Points-not_null e, load-ok e, none_left, push-null l n.value h, load-ok e)

push_all-Copied :
    (k : ℕ) (allocs : List Ptr) {h : ListNodes} {l : Handle} {xs : Cells Ptr} {last before p : Ptr}
    {zs : Cells Ptr}
    → IsList h l xs
    → Seg h last null before p zs
    → Apart zs xs
    → AllFresh h allocs
    → length zs < k
    → Returns (Copied h xs allocs (values zs)) (push_all k allocs l p h)
unfolding push_all
push_all-Copied zero allocs is s apart fresh fuel = absurd (omega arith)
push_all-Copied (suc k) [] is nil apart fresh fuel = returns (stop-Copied [] [] is refl true refl)
push_all-Copied (suc k) (a ∷ allocs) is nil apart fresh fuel =
    returns (stop-Copied (a ∷ allocs) [] is refl true refl)
push_all-Copied (suc k) [] is (cons {v} {xs = zs} e out s) apart fresh fuel =
    rw (push_all-null k [] e refl) (returns (stop-Copied [] (v ∷ values zs) is refl false refl))
push_all-Copied (suc k) (a ∷ allocs) {h} {l} {xs} is (cons {p} {v} {xs = zs} e out s) apart fresh
      fuel =
    elim (Bool-cases (a == null)) [
      | inl failed ↦
          rw (push_all-null k (a ∷ allocs) e ((==_iff a null).0 failed))
            (returns (stop-Copied (a ∷ allocs) (v ∷ values zs) is (rw failed) false (rw failed)))
      | inr got ↦
          let nz : a ≢ null = ground arith in
          let fresh_a : IsFresh h a = record { ne_null = nz; unused = (fresh.0 nz).0 } in
          let new : a ∉ ((p, v) ∷ zs) = Links.not-mem_of_none a (cons e out s) fresh_a.unused in
          let apart' : (b : Ptr) → b ∈ ((p, v) ∷ zs) → b ∉ (xs ++ (a, v) ∷ []) =
            λ b i. ground (arith, apart b, has-append b xs ((a, v) ∷ [])) in
          rw (Points-not_null e, load-ok e)
            (Returns-bind (push-snoc a v fresh_a is) λ r g (done, is', same).
              let e' : Points g p _ = record {
                ne_null = e.ne_null;
                holds = same p (apart' p (ground arith)) ∙ e.holds;
              } in
              let s' = Links.frame s (λ b i. same b (apart' b (ground arith))) in
              let fresh' =
                AllFresh-same {g = g} a allocs
                  (λ b ne unused. same b (not-mem-snoc is b a v ne unused) ∙ unused) (fresh.0 nz).1
                  fresh.1 in
              rw (load-ok e', done)
                (Returns-mono
                  (push_all-Copied k allocs is' s' (λ b i. apart' b (ground arith)) fresh'
                    (omega arith))
                  λ r' g' c. step-Copied a v xs allocs (values zs) got same c))
    ]

has-copied :
    (h : ListNodes) (a : Ptr) (allocs vs : List Ptr)
    → AllFresh h allocs
    → a ∈ copied allocs vs
    → h a ≡ none
has-copied h a allocs [] f i = cc
has-copied h a [] (v ∷ vs) f i = cc
has-copied h a (b ∷ allocs) (v ∷ vs) f i = elim (Bool-cases (b == null)) [
  | inl failed ↦ cc (rw failed at i)
  | inr got ↦ elim (Bool-cases (a == b)) [
    | inl here ↦ rw ((==_iff a b).0 here) (f.0 (λ z. false≢true (sym got ∙ (==_iff b null).1 z))).0
    | inr there ↦ has-copied h a allocs vs f.1 (ground (arith, got))
  ]
]

values-copied :
    (allocs vs : List Ptr) → all_copied allocs vs ≡ true → values (copied allocs vs) ≡ vs
values-copied allocs [] e = refl
values-copied [] (v ∷ vs) e = cc
values-copied (a ∷ allocs) (v ∷ vs) e = ground (arith, values-copied allocs vs)

copied_apart :
    {h : ListNodes} {last stop before p : Ptr} {ys : Cells Ptr} (xs : Cells Ptr)
    (allocs vs : List Ptr)
    → Seg h last stop before p ys
    → (a : Ptr) → a ∈ ys
    → AllFresh h allocs
    → a ∉ xs
    → a ∉ (xs ++ copied allocs vs)
copied_apart {h} xs allocs vs s a i fresh o = elim (Bool-cases (has a (copied allocs vs))) [
  | inl hit ↦
      absurd (false≢true (sym (Links.not-mem_of_none a s (has-copied h a allocs vs fresh hit)) ∙ i))
  | inr miss ↦ rw (has-append a xs (copied allocs vs), o, miss)
]

-- `list_concat` appends a copy of the other list's items, one new node for each address that
-- `malloc` gives, stops with `false` at the first failure, and leaves the other list as it was.
pub concat-Copied :
    {h : ListNodes} {this other : Handle} {xs ys : Cells Ptr} (allocs : List Ptr)
    → IsList h this xs
    → IsList h other ys
    → Apart ys xs
    → AllFresh h allocs
    → Returns
        (λ r g. Copied h xs allocs (values ys) r g × IsList g other ys)
        (concat allocs this other h)
unfolding concat
concat-Copied {other} {xs} {ys} allocs is is' apart fresh =
    Returns-mono
      (push_all-Copied (other.length + 1) allocs is is'.chain apart fresh
        (omega (arith, is'.counted)))
      λ r g c. (
        c,
        record {
          chain =
              Links.frame is'.chain λ a i.
                c.same a (copied_apart xs allocs (values ys) is'.chain a i fresh (apart a i));
          counted = is'.counted;
        },
      )

-- What `list_clone` returns: a list of its own with the same items, if there is memory for the handle
-- and for all nodes, otherwise nothing and no change.
abbrev pub Cloned :
    ListNodes → Handle → Cells Ptr → Ptr → List Ptr → Option Handle → ListNodes → Type 0
Cloned h this xs fresh allocs none g =
    ((fresh ≡ null) ⊎ (all_copied allocs (values xs) ≡ false)) × ((a : Ptr) → g a ≡ h a)
Cloned h this xs fresh allocs (some c) g =
    (fresh ≢ null)
    × (all_copied allocs (values xs) ≡ true)
    × IsList g c (copied allocs (values xs))
    × (values (copied allocs (values xs)) ≡ values xs)
    × IsList g this xs

finish-Cloned :
    {h : ListNodes} {this : Handle} {xs : Cells Ptr} (fresh : Ptr) (allocs : List Ptr)
    → IsList h this xs
    → AllFresh h allocs
    → fresh ≢ null
    → (r : Bool × Handle) (g : ListNodes) → Copied h [] allocs (values xs) r g
    → Returns
        (Cloned h this xs fresh allocs)
        ((if r.0 then pure (some r.1) else (destroy r.1 >> pure none)) g)
finish-Cloned {h} {this} {xs} fresh allocs is unused live r g c =
    elim (Bool-cases (all_copied allocs (values xs))) [
      | inl all ↦
          rw (c.done, all)
            (returns (
              live,
              all,
              c.list,
              values-copied allocs (values xs) all,
              record {
                chain =
                    Links.frame is.chain
                      λ a i. c.same a (copied_apart [] allocs (values xs) is.chain a i unused refl);
                counted = is.counted;
              },
            ))
      | inr short ↦
          rw (c.done, short)
            (Returns-bind (destroy-Without c.list) λ _ g' gone. returns (
              inr short,
              λ a. ground (arith, gone a, c.same a, has-copied h a allocs (values xs) unused),
            ))
    ]

-- `list_clone` of a well-formed list, where `malloc` gives unused addresses, each once: if there is
-- memory for the handle and for every node, it returns a second list with the same items and leaves
-- the first as it was; if an allocation fails, that of the handle or that of a node, it returns null
-- and every node that it made is given back, so that nothing has changed.
pub clone-Cloned :
    {h : ListNodes} {this : Handle} {xs : Cells Ptr} (fresh : Ptr) (allocs : List Ptr)
    → IsList h this xs
    → AllFresh h allocs
    → Returns (Cloned h this xs fresh allocs) (clone fresh allocs this h)
unfolding clone
clone-Cloned {h} {this} {xs} fresh allocs is unused = elim (Bool-cases (fresh == null)) [
  | inl failed ↦ rw failed (returns {s = h} (inl ((==_iff fresh null).0 failed), λ a. refl))
  | inr got ↦ rw got (
      Returns-bind
        (push_all-Copied (this.length + 1) allocs (record { chain = nil; counted = refl }) is.chain
          (λ a i. refl) unused (omega (arith, is.counted)))
        (finish-Cloned fresh allocs is unused (ground arith)))
]
