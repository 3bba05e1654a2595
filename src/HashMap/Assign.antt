-- ===== src/HashMap/Assign.antt =====
-- `hashmap_set` on a key that the map holds: the value of its entry is overwritten.
use rf_gateway.Base.{
  ℕ, suc, ◌%◌, ◌≡◌, refl, ◌≢◌, true, false, some, [], ◌∷◌, arith, if◌then◌else◌, ◌==◌, ==_iff,
  Bool-cases, inl, inr, ap, ◌∙◌, sym, length, Ptr, Points, write,
}
use rf_gateway.Links
use rf_gateway.Links.{Link, link, Cells, has, ◌∈◌, ◌∉◌, Seg, nil, cons, ne_of_mem}
use rf_gateway.HashMap.{HEntry, Entries, HashMap}
use rf_gateway.HashMap.View.{
  Pair, LinkAt, Chain, last, more, addr_of, value_of, holds, bucket, IsMap, DistinctKeys, orders,
  orders-write, order_part, order_opt, entry_at,
}

-- The entries with `value` under `key`.
abbrev pub assign : ℕ → Ptr → Cells Pair → Cells Pair
assign key value [] = []
assign key value ((p, (k, v)) ∷ xs) = (p, (k, if k == key then value else v)) ∷ assign key value xs

pub has-assign :
    (a : Ptr) (key : ℕ) (value : Ptr) (xs : Cells Pair) → has a (assign key value xs) ≡ has a xs
has-assign a key value [] = refl
has-assign a key value ((p, (k, v)) ∷ xs) = rw (has-assign a key value xs)

pub length-assign :
    (key : ℕ) (value : Ptr) (xs : Cells Pair) → length (assign key value xs) ≡ length xs
length-assign key value [] = refl
length-assign key value ((p, (k, v)) ∷ xs) = ap suc (length-assign key value xs)

pub holds-assign :
    (q key : ℕ) (value : Ptr) (xs : Cells Pair) → holds q (assign key value xs) ≡ holds q xs
holds-assign q key value [] = refl
holds-assign q key value ((p, (k, v)) ∷ xs) = rw (holds-assign q key value xs)

value_of-assign_ne :
    (q key : ℕ) (value : Ptr) (xs : Cells Pair)
    → q ≢ key
    → value_of q (assign key value xs) ≡ value_of q xs
value_of-assign_ne q key value [] ne = refl
value_of-assign_ne q key value ((p, (k, v)) ∷ xs) ne =
    ground (arith, value_of-assign_ne q key value xs ne)

pub value_of-assign :
    (q key : ℕ) (value : Ptr) (xs : Cells Pair)
    → holds key xs ≡ true
    → value_of q (assign key value xs) ≡ (if q == key then value else value_of q xs)
value_of-assign q key value [] e = cc
value_of-assign q key value ((p, (k, v)) ∷ xs) e =
    ground (arith, value_of-assign q key value xs, value_of-assign_ne q key value xs)

DistinctKeys-assign :
    (key : ℕ) (value : Ptr) (xs : Cells Pair) → DistinctKeys xs → DistinctKeys (assign key value xs)
DistinctKeys-assign key value [] d = tt
DistinctKeys-assign key value ((p, (k, v)) ∷ xs) d =
    (holds-assign k key value xs ∙ d.0, DistinctKeys-assign key value xs d.1)

assign-absent :
    (key : ℕ) (value : Ptr) (xs : Cells Pair) → holds key xs ≡ false → assign key value xs ≡ xs
assign-absent key value [] e = refl
assign-absent key value ((p, (k, v)) ∷ xs) e = ground (arith, assign-absent key value xs)

pub has-addr_of :
    (key : ℕ) (t : Ptr) (xs : Cells Pair) → holds key xs ≡ true → addr_of key xs ≡ t → t ∈ xs
has-addr_of key t [] e at = cc
has-addr_of key t ((p, (k, v)) ∷ xs) e at = ground (arith, has-addr_of key t xs)

bucket-assign :
    (c i key : ℕ) (value : Ptr) (xs acc : Cells Pair)
    → bucket c i (assign key value xs) (assign key value acc) ≡ assign key value (bucket c i xs acc)
bucket-assign c i key value [] acc = refl
bucket-assign c i key value ((p, (k, v)) ∷ xs) acc =
    ground (
      arith,
      bucket-assign c i key value xs acc,
      bucket-assign c i key value xs ((p, (k, v)) ∷ acc),
    )

-- Whoever has the key is at `t`.
abbrev OnlyAt : ℕ → Ptr → Cells Pair → Type 0
OnlyAt key t [] = Unit {0}
OnlyAt key t ((p, (k, v)) ∷ xs) = ((k == key) ≡ true → p ≡ t) × OnlyAt key t xs

OnlyAt-absent : (key : ℕ) (t : Ptr) (xs : Cells Pair) → holds key xs ≡ false → OnlyAt key t xs
OnlyAt-absent key t [] e = tt
OnlyAt-absent key t ((p, (k, v)) ∷ xs) e =
    ((λ same. ground arith), OnlyAt-absent key t xs (ground arith))

OnlyAt-addr_of :
    (key : ℕ) (t : Ptr) (xs : Cells Pair) → DistinctKeys xs → addr_of key xs ≡ t → OnlyAt key t xs
OnlyAt-addr_of key t [] d e = tt
OnlyAt-addr_of key t ((p, (k, v)) ∷ xs) d e = elim (Bool-cases (k == key)) [
  | inl here ↦ (λ _. rw here at e, OnlyAt-absent key t xs (rw ((==_iff k key).0 here) at d.0))
  | inr there ↦ ((λ same. absurd (cc)), OnlyAt-addr_of key t xs d.1 (rw there at e))
]

OnlyAt-bucket :
    (c i key : ℕ) (t : Ptr) (xs acc : Cells Pair)
    → OnlyAt key t xs
    → OnlyAt key t acc
    → OnlyAt key t (bucket c i xs acc)
OnlyAt-bucket c i key t [] acc o o' = o'
OnlyAt-bucket c i key t ((p, (k, v)) ∷ xs) acc o o' = elim (Bool-cases (k % c == i)) [
  | inl here ↦ rw here (OnlyAt-bucket c i key t xs ((p, (k, v)) ∷ acc) o.1 (o.0, o'))
  | inr there ↦ rw there (OnlyAt-bucket c i key t xs acc o.1 o')
]

-- Only the entry at `t` changes, and only in its value.
module _ {h : Entries} {t : Ptr} {n : HEntry} (at_t : Points h t n) (key : ℕ) (value : Ptr)
    (has_key : n.key ≡ key) where
  abbrev assigned : Entries
  assigned = write h t (some (record n { value = value }))

  LinkAt-assigned :
      {a q : Ptr} {kv : Pair}
      → ((kv.0 == key) ≡ true → a ≡ t)
      → LinkAt h a q kv
      → LinkAt assigned a q (kv.0, if kv.0 == key then value else kv.1)
  unfolding write
  LinkAt-assigned {a} {q} {kv} only e = elim (Bool-cases (a == t)) [
    | inl here ↦
        let same : a ≡ t = (==_iff a t).0 here in
        let eq : e.node ≡ n = ground (arith, e.points.holds, at_t.holds) in
        record {
          node = record n { value = value };
          points = record { ne_null = e.points.ne_null; holds = ground arith };
          next = ap (λ m. m.chain) (sym eq) ∙ e.next;
          key = ap (λ m. m.key) (sym eq) ∙ e.key;
          value = ground (arith, e.key, has_key, ap (λ (m : HEntry). m.key) eq);
        }
    | inr there ↦ record {
      node = e.node;
      points = record { ne_null = e.points.ne_null; holds = ground (arith, e.points.holds) };
      next = e.next;
      key = e.key;
      value = ground (arith, e.value);
    }
  ]

  Chain-assigned :
      {p : Ptr} {xs : Cells Pair}
      → Chain h p xs
      → OnlyAt key t xs
      → Chain assigned p (assign key value xs)
  Chain-assigned last o = last
  Chain-assigned (more e s) o = more (LinkAt-assigned o.0 e) (Chain-assigned s o.1)

  order-assigned :
      {l stop before p : Ptr} {xs : Cells Pair}
      → Seg (orders h) l stop before p xs
      → DistinctKeys xs
      → holds key xs ≡ true
      → addr_of key xs ≡ t
      → Seg (orders assigned) l stop before p (assign key value xs)
  order-assigned nil d e at = cc
  order-assigned (cons {before} {p} {q} {v = kv} {xs} e out s) d hit at =
      elim (Bool-cases (kv.0 == key)) [
        | inl here ↦
            let same : p ≡ t = rw here at at in
            let absent : holds key xs ≡ false = rw ((==_iff kv.0 key).0 here) at d.0 in
            let (m, points, eq) = entry_at e in
            let eq' : m ≡ n = ground (arith, points.holds, at_t.holds) in
            let part : order_part n ≡ link kv before q = ap order_part (sym eq') ∙ eq in
            let new = order_opt (some (record n { value = value })) in
            let moved : Points (write (orders h) t new) p (link (kv.0, value) before q) = record {
              ne_null = e.ne_null;
              holds = unfold write in ground (arith, same, part);
            } in
            rw (here, assign-absent key value xs absent, orders-write)
              (cons moved out (Links.frame-write t _ s (rw same at out)))
        | inr there ↦
            let at' : addr_of key xs ≡ t = rw there at at in
            let hit' : holds key xs ≡ true = rw there at hit in
            let inside : t ∈ xs = has-addr_of key t xs hit' at' in
            let ne : p ≢ t = ne_of_mem t p xs inside out in
            rw there (
              cons {q = q}
                (record {
                  ne_null = e.ne_null;
                  holds = rw orders-write (unfold write in ground (arith, ne, e.holds));
                })
                (has-assign p key value xs ∙ out) (order-assigned s d.1 hit' at'))
      ]

module _ {h : Entries} {m : HashMap} {xs : Cells Pair} (is : IsMap h m xs) (key : ℕ) (value : Ptr)
    (hit : holds key xs ≡ true) {n : HEntry} (at_t : Points h (addr_of key xs) n)
    (has_key : n.key ≡ key) where
  pub IsMap-assign :
      IsMap (write h (addr_of key xs) (some (record n { value = value }))) m (assign key value xs)
  IsMap-assign = record {
    order = order-assigned at_t key value has_key is.order is.keys hit refl;
    counted = is.counted ∙ sym (length-assign key value xs);
    keys = DistinctKeys-assign key value xs is.keys;
    wide = is.wide;
    width = is.width;
    chains = λ i lt. rw (bucket-assign m.capacity i key value xs []) (
        Chain-assigned at_t key value has_key (is.chains i lt)
          (OnlyAt-bucket m.capacity i key _ xs [] (OnlyAt-addr_of key _ xs is.keys refl) tt));
  }
