-- ===== src/LinkedList/Front.antt =====
-- `list_unshift`, `list_shift` and `list_first` work at the head.
use rf_gateway.Base.{
  ℕ, suc, ◌≡◌, refl, ◌≢◌, true, some, none, ◌∷◌, arith, length, sym, Ptr, null, Returns, returns,
  Points, Points-not_null, Points-write, Points-write_ne, load-ok, modify-ok, free-ok, write,
  ne→==-false, ==_refl,
}
use rf_gateway.LinkedList.{handle, Handle, lnode, ListNodes, unshift, shift}
use rf_gateway.Links
use rf_gateway.LinkedList.Valid.{IsList, IsFresh}
use rf_gateway.Links.{Cells, ◌∉◌, SameOutside, Seg, nil, cons, retarget, ne_of_mem}

module _ {h : ListNodes} (fresh item : Ptr) (free : IsFresh h fresh) where
  unshift-Seg :
      {hd tl : Ptr} {n : ℕ} {xs : Cells Ptr}
      → Seg h tl null null hd xs
      → n ≡ length xs
      → Returns
          (λ (done, l') g.
            (done ≡ true) × IsList g l' ((fresh, item) ∷ xs) × SameOutside ((fresh, item) ∷ xs) h g)
          (unshift fresh (handle hd tl n) item h)
  unfolding unshift
  unshift-Seg nil count =
      let node = lnode item null null in
      rw (ne→==-false fresh null free.ne_null) (
        returns {s = write h fresh (some node)} (
          refl,
          record {
            chain = cons (Points-write h node free.ne_null) refl nil;
            counted = omega arith;
          },
          λ a o. unfold write in ground arith,
        ))
  unshift-Seg {hd} {tl} (cons {p} {q} {v} {xs} e out s) count =
      let node = lnode item null p in
      let apart : fresh ∉ ((p, v) ∷ xs) = Links.not-mem_of_none fresh (cons e out s) free.unused in
      let ne_p : p ≢ fresh = ground arith in
      let ne_fresh : fresh ≢ p = ground arith in
      let old = Points-write_ne (some node) e ne_p in
      let g = write h fresh (some node) in
      let ne_tl : tl ≢ null = (retarget null e out s).points.ne_null in
      rw
        (
          ne→==-false fresh null free.ne_null,
          Points-not_null e,
          modify-ok old,
          ne→==-false tl null ne_tl,
        )
        (returns {s = write g p (some (lnode v fresh q))} (
          refl,
          record {
            chain = cons (Points-write_ne _ (Points-write h node free.ne_null) ne_fresh) apart (
                cons (Points-write g (lnode v fresh q) e.ne_null) out
                  (Links.frame-write p _ (Links.frame-write fresh _ s (ground arith)) out));
            counted = omega arith;
          },
          λ a o. unfold write in ground arith,
        ))

  -- With an address from `malloc`, `list_unshift` puts a new cell in front of the others and writes
  -- only to the nodes of the list.
  pub unshift-cons :
      {l : Handle} {xs : Cells Ptr}
      → IsList h l xs
      → Returns
          (λ (done, l') g.
            (done ≡ true) × IsList g l' ((fresh, item) ∷ xs) × SameOutside ((fresh, item) ∷ xs) h g)
          (unshift fresh l item h)
  unshift-cons is = unshift-Seg is.chain is.counted

-- What `list_shift` leaves of a list with the cell `(p, v)` and then `ys`.
abbrev pub Shifted : ListNodes → Ptr × Ptr → Cells Ptr → Ptr × Handle → ListNodes → Type 0
Shifted h (p, v) ys (item, l') g =
    (item ≡ v) × IsList g l' ys × (g p ≡ none) × SameOutside ((p, v) ∷ ys) h g

module _ {h : ListNodes} where
  shift-parts :
      {p q v tl : Ptr} {n : ℕ} {xs : Cells Ptr}
      → Points h p (lnode v null q)
      → p ∉ xs
      → n ≡ suc (length xs)
      → Seg h tl null p q xs
      → Returns (Shifted h (p, v) xs) (shift (handle p tl n) h)
  unfolding shift
  shift-parts {p} {v} e out count nil =
      rw (Points-not_null e, load-ok e, ==_refl p, load-ok e, free-ok e)
        (returns {s = write h p none} (
          refl,
          record { chain = nil; counted = omega arith },
          unfold write in ground arith,
          λ a o. unfold write in ground arith,
        ))
  shift-parts {p} {v} {tl} e out count (cons {p = q} {q = r} {v = w} {xs} e' out' s) =
      let t = retarget null e' out' s in
      let ne_tl : tl ≢ p = λ same. ne_of_mem tl p ((q, w) ∷ xs) t.inside out (sym same) in
      let ne : p ≢ q = ground arith in
      let ne' : q ≢ p = ground arith in
      let g = write h q (some (lnode w null r)) in
      let e'' = Points-write_ne (some (lnode w null r)) e ne in
      rw
        (
          Points-not_null e,
          load-ok e,
          ne→==-false tl p ne_tl,
          modify-ok e',
          load-ok e'',
          free-ok e'',
        )
        (returns {s = write g p none} (
          refl,
          record {
            chain =
                cons (Points-write_ne none (Points-write h (lnode w null r) e'.ne_null) ne') out'
                  (Links.frame-write p none (Links.frame-write q _ s out') (ground arith));
            counted = omega arith;
          },
          unfold write in ground arith,
          λ a o. unfold write in ground arith,
        ))

  shift-Seg :
      {hd tl : Ptr} {n : ℕ} {c : Ptr × Ptr} {xs : Cells Ptr}
      → n ≡ suc (length xs)
      → Seg h tl null null hd (c ∷ xs)
      → Returns (Shifted h c xs) (shift (handle hd tl n) h)
  shift-Seg count (cons e out s) = shift-parts e out count s

  -- `list_shift` returns the item of the first node, frees that node, leaves the list of the
  -- others, and writes only to the nodes of the list.
  pub shift-cons :
      {l : Handle} {c : Ptr × Ptr} {ys : Cells Ptr}
      → IsList h l (c ∷ ys)
      → Returns (Shifted h c ys) (shift l h)
  shift-cons is = shift-Seg is.counted is.chain
