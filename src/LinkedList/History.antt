-- ===== src/LinkedList/History.antt =====
-- Runs of several calls of list.c against the list of the items.
use rf_gateway.Base.{
  ◌≡◌, ◌≢◌, refl, ap, Bool, true, false, Bool-cases, inl, inr, none, List, [], ◌∷◌, ◌++◌, arith,
  ◌==◌, ==_iff, if◌then◌else◌, Cmd, pure, ◌>>=◌, and_then, Returns, returns, Returns-bind,
  Returns-run, ok, Ptr, null, Points, load-ok, ne→==-false,
}
use rf_gateway.Links.{Cells, Seg, values, nil, cons}
use rf_gateway.LinkedList
use rf_gateway.LinkedList.{Handle, ListNodes, LNode, lnode}
use rf_gateway.LinkedList.Valid.{IsList, IsFresh}
use rf_gateway.LinkedList.Back.{push-snoc, pop-snoc}
use rf_gateway.LinkedList.Front.{unshift-cons, shift-cons}
use rf_gateway.LinkedList.Loops.{clear-Without}

-- The address of a new node, for each state of the memory.
pub record Allocator : Type 0 where
  pub node : ListNodes → Ptr
  pub unused : (h : ListNodes) → node h ≢ null → h (node h) ≡ none

-- `peek` is `list_first` behind `list_empty`, as rf.c calls it.
pub data Call : Type 0 where
  push unshift : Ptr → Call
  pop shift peek empty clear : Call

pub data Answer : Type 0 where
  item : Ptr → Answer
  truth : Bool → Answer
  done : Answer

-- Whether a list of items has none.
abbrev pub is_none : List Ptr → Bool
is_none [] = true
is_none (v ∷ vs) = false

module _ (a : Allocator) where
  unfoldable pub perform : Handle → Call → Cmd ListNodes (Answer × Handle)
  perform l (push v) =
      λ h. and_then (LinkedList.push (a.node h) l v h) (λ (stored, l'). pure (truth stored, l'))
  perform l (unshift v) =
      λ h. and_then (LinkedList.unshift (a.node h) l v h) (λ (stored, l'). pure (truth stored, l'))
  perform l pop = do (v, l') ← LinkedList.pop l; pure (item v, l')
  perform l shift = do (v, l') ← LinkedList.shift l; pure (item v, l')
  perform l peek =
      if LinkedList.empty l
      then pure (item null, l)
      else do v ← LinkedList.first l; pure (item v, l)
  perform l empty = pure (truth (LinkedList.empty l), l)
  perform l clear = do l' ← LinkedList.clear l; pure (done, l')

  unfoldable pub perform_list : Handle → List Call → Cmd ListNodes (List Answer × Handle)
  unfolding perform
  perform_list l [] = pure ([], l)
  perform_list l (c ∷ cs) = do
    (r, l') ← perform l c
    (rs, l'') ← perform_list l' cs
    pure (r ∷ rs, l'')

  -- One call on a list of items, where `fresh` is the address that the allocator has for a node.
  pub data Step (fresh : Ptr) : List Ptr → Call → Answer → List Ptr → Type 0 where
    pushed :
        (vs : List Ptr) (v : Ptr)
        → fresh ≢ null
        → Step fresh vs (push v) (truth true) (vs ++ v ∷ [])
    unshifted :
        (vs : List Ptr) (v : Ptr) → fresh ≢ null → Step fresh vs (unshift v) (truth true) (v ∷ vs)
    no_push : (vs : List Ptr) (v : Ptr) → fresh ≡ null → Step fresh vs (push v) (truth false) vs
    no_unshift :
        (vs : List Ptr) (v : Ptr) → fresh ≡ null → Step fresh vs (unshift v) (truth false) vs
    popped : (vs : List Ptr) (v : Ptr) → Step fresh (vs ++ v ∷ []) pop (item v) vs
    no_pop : Step fresh [] pop (item null) []
    shifted : (vs : List Ptr) (v : Ptr) → Step fresh (v ∷ vs) shift (item v) vs
    no_shift : Step fresh [] shift (item null) []
    peeked : (vs : List Ptr) (v : Ptr) → Step fresh (v ∷ vs) peek (item v) (v ∷ vs)
    no_peek : Step fresh [] peek (item null) []
    asked : (vs : List Ptr) → Step fresh vs empty (truth (is_none vs)) vs
    cleared : (vs : List Ptr) → Step fresh vs clear done []

  -- The calls from a list and its heap on, each beside its step on the items, with the address that
  -- the allocator has in the very state of the call.
  pub data Steps : Handle → ListNodes → List Ptr → List Call → List Answer → List Ptr → Type 0 where
    here : {l : Handle} {h : ListNodes} {vs : List Ptr} → Steps l h vs [] [] vs
    next :
        {l l' : Handle} {h h' : ListNodes} {vs ws us : List Ptr} {c : Call} {cs : List Call}
        {r : Answer} {rs : List Answer}
        → perform l c h ≡ ok (r, l') h'
        → Step (a.node h) vs c r ws
        → Steps l' h' ws cs rs us
        → Steps l h vs (c ∷ cs) (r ∷ rs) us

  -- After a call, a well-formed list whose items are those of the abstract step.
  abbrev Follows : Ptr → Cells Ptr → Call → Answer × Handle → ListNodes → Type 0
  Follows fresh xs c (r, l) h =
      (ys : Cells Ptr) × IsList h l ys × Step fresh (values xs) c r (values ys)

values-append : (xs ys : Cells Ptr) → values (xs ++ ys) ≡ values xs ++ values ys
values-append [] ys = refl
values-append ((p, v) ∷ xs) ys = ap (λ vs. v ∷ vs) (values-append xs ys)

-- A list of cells is empty or has a last one.
data Ending : Cells Ptr → Type 0 where
  nothing : Ending []
  last_one : (ys : Cells Ptr) (c : Ptr × Ptr) → Ending (ys ++ c ∷ [])

ending : (xs : Cells Ptr) → Ending xs
ending [] = nothing
ending (x ∷ xs) = behind (ending xs)
  where
    behind : {xs : Cells Ptr} → Ending xs → Ending (x ∷ xs)
    behind nothing = last_one [] x
    behind (last_one ys c) = last_one (x ∷ ys) c

ends_null : {h : ListNodes} {tl hd : Ptr} → Seg h tl null null hd [] → (tl ≡ null) × (hd ≡ null)
ends_null nil = (refl, refl)

head_node :
    {h : ListNodes} {tl before hd : Ptr} {c : Ptr × Ptr} {xs : Cells Ptr}
    → Seg h tl null before hd (c ∷ xs)
    → (n : LNode) × Points h hd n × (n.value ≡ c.1)
head_node (cons {before} {q} {v} e out s) = (lnode v before q, e, refl)

module _ (a : Allocator) {h : ListNodes} {l : Handle} {xs : Cells Ptr} (is : IsList h l xs) where
  node-IsFresh : (a.node h == null) ≡ false → IsFresh h (a.node h)
  node-IsFresh got =
      let ne : a.node h ≢ null = ground arith in record { ne_null = ne; unused = a.unused h ne }

  push-Follows : (v : Ptr) → Returns (Follows a (a.node h) xs (push v)) (perform a l (push v) h)
  unfolding perform LinkedList.push
  push-Follows v = elim (Bool-cases (a.node h == null)) [
    | inl full ↦
        let e : a.node h ≡ null = (==_iff (a.node h) null).0 full in
        rw full (returns {s = h} (xs, is, no_push (values xs) v e))
    | inr got ↦
        Returns-bind (push-snoc (a.node h) v (node-IsFresh got) is) λ (stored, l') g (went, is', _).
          returns {s = g} (
            xs ++ (a.node h, v) ∷ [],
            is',
            rw (went, values-append xs ((a.node h, v) ∷ []))
                (pushed (values xs) v (node-IsFresh got).ne_null),
          )
  ]

  unshift-Follows :
      (v : Ptr) → Returns (Follows a (a.node h) xs (unshift v)) (perform a l (unshift v) h)
  unfolding perform LinkedList.unshift
  unshift-Follows v = elim (Bool-cases (a.node h == null)) [
    | inl full ↦
        let e : a.node h ≡ null = (==_iff (a.node h) null).0 full in
        rw full (returns {s = h} (xs, is, no_unshift (values xs) v e))
    | inr got ↦
        Returns-bind (unshift-cons (a.node h) v (node-IsFresh got) is)
          λ (stored, l') g (went, is', _).
            returns {s = g} (
              (a.node h, v) ∷ xs,
              is',
              rw went (unshifted (values xs) v (node-IsFresh got).ne_null),
            )
  ]

  clear-Follows : Returns (Follows a (a.node h) xs clear) (perform a l clear h)
  unfolding perform
  clear-Follows =
      Returns-bind (clear-Without is)
        λ l' g (is', _). returns {s = g} ([], is', cleared (values xs))

module _ (a : Allocator) {h : ListNodes} {l : Handle} where
  pop-Follows :
      {xs : Cells Ptr}
      → IsList h l xs
      → Ending xs
      → Returns (Follows a (a.node h) xs pop) (perform a l pop h)
  unfolding perform LinkedList.pop
  pop-Follows is nothing =
      let no_tail : (l.tail == null) ≡ true = (==_iff l.tail null).1 (ends_null is.chain).0 in
      rw no_tail (returns {s = h} ([], is, no_pop))
  pop-Follows is (last_one ys c) =
      Returns-bind (pop-snoc {c = c} {ys = ys} is) λ (v, l') g (same, is', _, _).
        returns {s = g} (ys, is', rw (same, values-append ys (c ∷ [])) (popped (values ys) c.1))

  shift-Follows :
      (xs : Cells Ptr)
      → IsList h l xs
      → Returns (Follows a (a.node h) xs shift) (perform a l shift h)
  unfolding perform LinkedList.shift
  shift-Follows [] is =
      let no_head : (l.head == null) ≡ true = (==_iff l.head null).1 (ends_null is.chain).1 in
      rw no_head (returns {s = h} ([], is, no_shift))
  shift-Follows (c ∷ xs) is =
      Returns-bind (shift-cons {c = c} {ys = xs} is)
        λ (v, l') g (same, is', _, _). returns {s = g} (xs, is', rw same (shifted (values xs) c.1))

  empty-Follows :
      (xs : Cells Ptr)
      → IsList h l xs
      → Returns (Follows a (a.node h) xs empty) (perform a l empty h)
  unfolding perform LinkedList.empty
  empty-Follows [] is =
      let none_left : (l.length == 0) ≡ true = (==_iff l.length 0).1 is.counted in
      rw none_left (returns {s = h} ([], is, asked []))
  empty-Follows (c ∷ xs) is =
      let some_left : (l.length == 0) ≡ false =
        ne→==-false l.length 0 (omega (arith, is.counted)) in
      rw some_left (returns {s = h} (c ∷ xs, is, asked (values (c ∷ xs))))

  peek-Follows :
      (xs : Cells Ptr) → IsList h l xs → Returns (Follows a (a.node h) xs peek) (perform a l peek h)
  unfolding perform LinkedList.empty LinkedList.first
  peek-Follows [] is =
      let none_left : (l.length == 0) ≡ true = (==_iff l.length 0).1 is.counted in
      rw none_left (returns {s = h} ([], is, no_peek))
  peek-Follows (c ∷ xs) is =
      let some_left : (l.length == 0) ≡ false =
        ne→==-false l.length 0 (omega (arith, is.counted)) in
      let (n, at, same) = head_node is.chain in
      rw (some_left, load-ok at) (returns {s = h} (c ∷ xs, is, rw same (peeked (values xs) c.1)))

perform-Follows :
    (a : Allocator) (c : Call) {h : ListNodes} {l : Handle} {xs : Cells Ptr}
    → IsList h l xs
    → Returns (Follows a (a.node h) xs c) (perform a l c h)
perform-Follows a (push v) is = push-Follows a is v
perform-Follows a (unshift v) is = unshift-Follows a is v
perform-Follows a pop {xs} is = pop-Follows a is (ending xs)
perform-Follows a shift {xs} is = shift-Follows a xs is
perform-Follows a peek {xs} is = peek-Follows a xs is
perform-Follows a empty {xs} is = empty-Follows a xs is
perform-Follows a clear is = clear-Follows a is

-- Any sequence of calls on a well-formed list ends well, in a well-formed list, with the answers of a
-- run on the list of its items from those before to those after. An item is stored if the allocator
-- has an address for a node in the state of that call, and is refused if not.
pub perform_list-Steps :
    (a : Allocator) (cs : List Call) {h : ListNodes} {l : Handle} {xs : Cells Ptr}
    → IsList h l xs
    → Returns
        (λ (rs, l') h'.
          (ys : Cells Ptr) × IsList h' l' ys × Steps a l h (values xs) cs rs (values ys))
        (perform_list a l cs h)
unfolding perform_list
perform_list-Steps a [] {h} {xs} is = returns {s = h} (xs, is, here)
perform_list-Steps a (c ∷ cs) is =
    Returns-bind (Returns-run (perform-Follows a c is)) λ (r, l') g ((ys, is', step), ran).
      Returns-bind (perform_list-Steps a cs is')
        λ (rs, l'') g' (zs, is'', steps). returns {s = g'} (zs, is'', next ran step steps)
