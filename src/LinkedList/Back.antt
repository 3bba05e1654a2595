-- ===== src/LinkedList/Back.antt =====
-- `list_push` and `list_pop` work at the tail.
use rf_gateway.Base.{
  ℕ, suc, ◌≡◌, refl, ◌≢◌, true, false, some, none, [], ◌∷◌, ◌++◌, arith, length, length-append, Ptr,
  null, ok, Returns, returns, Points, Points-not_null, Points-write, Points-write_ne, load-ok,
  modify-ok, free-ok, write, ne→==-false, ==_refl, sym, ◌∙◌, ap,
}
use rf_gateway.LinkedList.{Handle, handle, lnode, ListNodes, push, pop}
use rf_gateway.Links
use rf_gateway.LinkedList.Valid.{IsList, IsFresh}
use rf_gateway.Links.{
  Cells, has, ◌∈◌, ◌∉◌, has-append, SameOutside, Seg, nil, cons, retarget, unsnoc, ne_of_mem,
}

module _ {h : ListNodes} (fresh item : Ptr) (free : IsFresh h fresh) where
  push-Seg :
      {hd tl : Ptr} {n : ℕ} {xs : Cells Ptr}
      → Seg h tl null null hd xs
      → n ≡ length xs
      → Returns
          (λ (done, l') g.
            (done ≡ true)
            × IsList g l' (xs ++ (fresh, item) ∷ [])
            × SameOutside (xs ++ (fresh, item) ∷ []) h g)
          (push fresh (handle hd tl n) item h)
  unfolding push
  push-Seg nil count =
      rw
        (
          ne→==-false fresh null free.ne_null,
          modify-ok (Points-write h (lnode item null null) free.ne_null),
        )
        (returns (
          refl,
          record {
            chain =
                cons
                  (Points-write (write h fresh (some (lnode item null null))) (lnode item null null)
                    free.ne_null)
                  refl nil;
            counted = omega arith;
          },
          λ a o. unfold write in ground arith,
        ))
  push-Seg {tl} {n} (cons {p} {v} {xs} e out s) count =
      let blank = lnode item null null in
      let apart : fresh ∉ ((p, v) ∷ xs) = Links.not-mem_of_none fresh (cons e out s) free.unused in
      let ne_p : p ≢ fresh = ground arith in
      let first = Points-write_ne (some blank) e ne_p in
      let t = retarget fresh first out (Links.frame-write fresh (some blank) s (ground arith)) in
      let ne : fresh ≢ tl = ne_of_mem tl fresh ((p, v) ∷ xs) t.inside apart in
      let added =
        Points-write_ne (some (record t.node { next = fresh })) (Points-write h blank free.ne_null)
          ne in
      rw
        (
          ne→==-false fresh null free.ne_null,
          Points-not_null e,
          Points-not_null t.points,
          modify-ok t.points,
          modify-ok added,
        )
        (returns (
          refl,
          record {
            chain =
                Links.append (Links.frame-write fresh _ t.chain apart)
                  (cons (Points-write _ (lnode item tl null) free.ne_null) refl nil)
                  (λ a i. ground (arith, ne_of_mem a fresh ((p, v) ∷ xs)));
            counted = omega (arith, length-append xs ((fresh, item) ∷ []));
          },
          λ a o.
              unfold write in
              ground (arith, has-append a xs ((fresh, item) ∷ []), ne_of_mem tl a ((p, v) ∷ xs)),
        ))

  -- With an address from `malloc`, `list_push` puts a new cell behind the others and writes only to
  -- the nodes of the list.
  pub push-snoc :
      {l : Handle} {xs : Cells Ptr}
      → IsList h l xs
      → Returns
          (λ (done, l') g.
            (done ≡ true)
            × IsList g l' (xs ++ (fresh, item) ∷ [])
            × SameOutside (xs ++ (fresh, item) ∷ []) h g)
          (push fresh l item h)
  push-snoc is = push-Seg is.chain is.counted

-- Where `malloc` fails, `list_push` says so and changes nothing.
pub push-null : (l : Handle) (item : Ptr) (h : ListNodes) → push null l item h ≡ ok (false, l) h
unfolding push
push-null l item h = refl

snoc-injective :
    {a b : Ptr × Ptr} (xs ys : Cells Ptr) → xs ++ a ∷ [] ≡ ys ++ b ∷ [] → (xs ≡ ys) × (a ≡ b)
snoc-injective [] [] e = (refl, cc)
snoc-injective [] (y ∷ []) e = absurd (cc)
snoc-injective [] (y ∷ z ∷ ys) e = absurd (cc)
snoc-injective (x ∷ []) [] e = absurd (cc)
snoc-injective (x ∷ z ∷ xs) [] e = absurd (cc)
snoc-injective {a} {b} (x ∷ xs) (y ∷ ys) e =
    let same : (xs ≡ ys) × (a ≡ b) = snoc-injective xs ys (cc) in (ground arith, same.1)

-- What `list_pop` leaves of a list with the cells `ys` and then `(p, v)`.
abbrev pub Popped : ListNodes → Cells Ptr → Ptr × Ptr → Ptr × Handle → ListNodes → Type 0
Popped h ys (p, v) (item, l') g =
    (item ≡ v) × IsList g l' ys × (g p ≡ none) × SameOutside (ys ++ (p, v) ∷ []) h g

module _ {h : ListNodes} where
  pop-split :
      {before hd tl item : Ptr} {n : ℕ} {front : Cells Ptr}
      → Points h tl (lnode item before null)
      → tl ∉ front
      → n ≡ suc (length front)
      → Seg h before tl null hd front
      → Returns (Popped h front (tl, item)) (pop (handle hd tl n) h)
  unfolding pop
  pop-split {tl} {item} e out count nil =
      rw (Points-not_null e, load-ok e, ==_refl tl, load-ok e, free-ok e)
        (returns {s = write h tl none} (
          refl,
          record { chain = nil; counted = omega arith },
          unfold write in ground arith,
          λ a o. unfold write in ground arith,
        ))
  pop-split {before} {tl} {item} {n} e out count (cons {p} {v} {xs} e' out' s) =
      let t = retarget null e' out' s in
      let ne = ne_of_mem before tl ((p, v) ∷ xs) t.inside out in
      let cut = write h before (some (record t.node { next = null })) in
      let e'' = Points-write_ne (some (record t.node { next = null })) e ne in
      rw
        (
          Points-not_null e,
          load-ok e,
          ne→==-false tl p (ground arith),
          modify-ok t.points,
          load-ok e'',
          free-ok e'',
        )
        (returns (
          refl,
          record { chain = Links.frame-write tl none t.chain out; counted = omega arith },
          unfold write in ground arith,
          λ a o.
              unfold write in
              ground (arith, has-append a xs ((tl, item) ∷ []), ne_of_mem before a ((p, v) ∷ xs)),
        ))

  pop-Seg :
      {hd tl : Ptr} {n : ℕ} {c : Ptr × Ptr} {xs ys : Cells Ptr}
      → xs ≡ ys ++ c ∷ []
      → n ≡ length xs
      → Seg h tl null null hd xs
      → Returns (Popped h ys c) (pop (handle hd tl n) h)
  pop-Seg {c} {ys} eq count nil =
      absurd (omega (arith, ap (length {A = Ptr × Ptr}) eq, length-append ys (c ∷ [])))
  pop-Seg {tl} {n} {c} {ys} eq count (cons e out s) =
      let u = unsnoc e out s in
      let (front, last) = snoc-injective u.front ys (sym u.splits ∙ eq) in
      let counted : n ≡ suc (length u.front) =
        omega (
          arith,
          ap (length {A = Ptr × Ptr}) u.splits,
          length-append u.front ((tl, u.item) ∷ []),
        ) in
      rw (← front, ← last) (pop-split u.points u.out counted u.chain)

  -- `list_pop` returns the item of the last node, frees that node, leaves the list of the others,
  -- and writes only to the nodes of the list.
  pub pop-snoc :
      {l : Handle} {c : Ptr × Ptr} {ys : Cells Ptr}
      → IsList h l (ys ++ c ∷ [])
      → Returns (Popped h ys c) (pop l h)
  pop-snoc is = pop-Seg refl is.counted is.chain
