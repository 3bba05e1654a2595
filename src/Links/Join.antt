-- ===== src/Links/Join.antt =====
-- The writes that take a node out of a doubly linked segment.
use rf_gateway.Base.{
  ◌≡◌, refl, ◌≢◌, ==_refl, ne→==-false, Option, none, some, ◌∷◌, ◌++◌, arith, ◌==◌, if◌then◌else◌,
  Ptr, null, Points, Points-not_null, Points-write, Points-write_ne, write, append-nil,
}
use rf_gateway.Links.{
  Link, link, Nodes, Cells, has-append, ◌∈◌, ◌∉◌, Seg, nil, cons, frame-write, ne_of_mem, retarget,
  append,
}

abbrev pub with_next : {V : Type 0} → Ptr → Option (Link V) → Option (Link V)
with_next q none = none
with_next q (some n) = some (record n { next = q })

abbrev pub with_prev : {V : Type 0} → Ptr → Option (Link V) → Option (Link V)
with_prev q none = none
with_prev q (some n) = some (record n { prev = q })

-- `if (a) a->next = q` and `if (a) a->prev = q`
abbrev pub set_next : {V : Type 0} → Nodes V → (a q : Ptr) → Nodes V
set_next h a q = if a == null then h else write h a (with_next q (h a))

abbrev pub set_prev : {V : Type 0} → Nodes V → (a q : Ptr) → Nodes V
set_prev h a q = if a == null then h else write h a (with_prev q (h a))

-- The node at `t`, between `mid` and `next`, is bridged and given back.
abbrev pub unlinked : {V : Type 0} → Nodes V → (t mid next : Ptr) → Nodes V
unlinked h t mid next = write (set_prev (set_next h mid next) next mid) t none

pub set_next-ok :
    {V : Type 0} {h : Nodes V} {a : Ptr} {n : Link V} (q : Ptr)
    → Points h a n
    → set_next h a q ≡ write h a (some (record n { next = q }))
set_next-ok q e = rw (Points-not_null e, e.holds) refl

pub set_prev-ok :
    {V : Type 0} {h : Nodes V} {a : Ptr} {n : Link V} (q : Ptr)
    → Points h a n
    → set_prev h a q ≡ write h a (some (record n { prev = q }))
set_prev-ok q e = rw (Points-not_null e, e.holds) refl

pub joined :
    {V : Type 0} (h : Nodes V) {last p mid next t : Ptr} {front back : Cells V}
    → Seg h mid t null p front
    → Seg h last null t next back
    → t ∉ front
    → t ∉ back
    → ((a : Ptr) → a ∈ front → a ∉ back)
    → Seg
        (unlinked h t mid next)
        (if t == last then mid else last)
        null
        null
        (if t == p then next else p)
        (front ++ back)
joined h {t} nil nil out out' apart = rw (==_refl t) nil
joined h {last} {t} nil (cons {p = q} {q = r} {v = w} {xs} e o s) out out' apart =
    let inside = (retarget null e o s).inside in
    let ne : t ≢ last = ne_of_mem last t ((q, w) ∷ xs) inside out' in
    rw (==_refl t, ne→==-false t last ne, set_prev-ok null e)
      (frame-write t none (cons (Points-write h (link w null r) e.ne_null) o (frame-write q _ s o))
        out')
joined h {mid} {t} (cons {p} {q} {v} {xs} e o s) nil out out' apart =
    let r = retarget null e o s in
    let ne : t ≢ p = ground arith in
    rw (==_refl t, ne→==-false t p ne, append-nil, set_next-ok null r.points)
      (frame-write t none r.chain out)
joined h {last} {mid} {t} (cons {p} {v} {xs} e o s)
      (cons {p = q} {q = r'} {v = w} {xs = ys} e' o' s') out out' apart =
    let l = retarget q e o s in
    let inside = (retarget null e' o' s').inside in
    let ne : t ≢ p = ground arith in
    let ne' : t ≢ last = ne_of_mem last t ((q, w) ∷ ys) inside out' in
    let mid_out : mid ∉ ((q, w) ∷ ys) = apart mid l.inside in
    let q_ne : q ≢ mid = ground arith in
    let q_out : q ∉ ((p, v) ∷ xs) = ground (arith, apart q) in
    let there = Points-write_ne (some (record l.node { next = q })) e' q_ne in
    rw (ne→==-false t p ne, ne→==-false t last ne', set_next-ok q l.points, set_prev-ok mid there)
      (frame-write t none
        (append (frame-write q _ l.chain q_out)
          (cons (Points-write _ (link w mid r') e'.ne_null) o'
            (frame-write q _ (frame-write mid _ s' (ground arith)) o'))
          apart)
        (rw (has-append t ((p, v) ∷ xs) ((q, w) ∷ ys), out, out') refl))
