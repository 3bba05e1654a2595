-- ===== src/HashMap/Insert.antt =====
-- `hashmap_set` on a new key: an entry is linked in front of its chain and behind the last one.
use mathlib.Core.Path.{subst}
use rf_gateway.Base.{
  ℕ, ◌+◌, ◌%◌, ◌<◌, ◌≡◌, refl, ◌≢◌, true, false, none, some, List, [], ◌∷◌, ◌++◌, arith,
  if◌then◌else◌, ◌==◌, ==_iff, Bool-cases, inl, inr, ap, ◌∙◌, sym, length, get_or, set, Ptr, null,
  Points, Points-not_null, Points-write, Points-write_ne, modify-ok, write, Returns, returns,
  Returns-mono, length-set, get_or-set, length-append,
}
use rf_gateway.Links
use rf_gateway.Links.{Link, link, Cells, has, ◌∈◌, ◌∉◌, Seg, nil, cons, ne_of_mem, retarget}
use rf_gateway.HashMap.{HEntry, Entries, HashMap, hentry_create, link_entry}
use rf_gateway.HashMap.Lookup.{bucket_at-ok}
use rf_gateway.HashMap.Resize.{LinkAt-write}
use rf_gateway.HashMap.View.{
  Pair, LinkAt, more, Chain-frame, holds, DistinctKeys, bucket, IsMap, orders, orders-write,
  order_part, entry_at,
}

-- The map with these fields.
abbrev pub hashmap : List Ptr → (head tail : Ptr) → (capacity size : ℕ) → HashMap
hashmap es hd tl c n = record { entries = es; head = hd; tail = tl; capacity = c; size = n }

-- A write that keeps the chain, the key and the value.
pub LinkAt-relink :
    {h : Entries} {a p q : Ptr} {kv : Pair} {n : HEntry} (m : HEntry)
    → Points h p n
    → m.chain ≡ n.chain
    → m.key ≡ n.key
    → m.value ≡ n.value
    → LinkAt h a q kv
    → LinkAt (write h p (some m)) a q kv
LinkAt-relink {h} {a} {p} {q} {kv} {n} m at chain key value e = elim (Bool-cases (a == p)) [
  | inl here ↦
      let same : a ≡ p = (==_iff a p).0 here in
      let eq : e.node ≡ n = ground (arith, e.points.holds, at.holds) in
      record {
        node = m;
        points = record { ne_null = e.points.ne_null; holds = unfold write in ground arith };
        next = chain ∙ ap (λ k. k.chain) (sym eq) ∙ e.next;
        key = key ∙ ap (λ k. k.key) (sym eq) ∙ e.key;
        value = value ∙ ap (λ k. k.value) (sym eq) ∙ e.value;
      }
  | inr there ↦ LinkAt-write (some m) (λ same. ground arith) e
]

-- What linking the entry at `fresh` does to the map `m`, whose chain began at `start`.
record Linked (h : Entries) (m : HashMap) (fresh bucket start : Ptr) (kv : Pair) (xs : Cells Pair)
    (m' : HashMap) (g : Entries) : Type 0 where
  fields : m' ≡ hashmap (set m.entries bucket fresh) m'.head fresh m.capacity (m.size + 1)
  order : Seg (orders g) fresh null null m'.head (xs ++ (fresh, kv) ∷ [])
  added : LinkAt g fresh start kv
  kept : {a q : Ptr} {kv' : Pair} → a ≢ fresh → LinkAt h a q kv' → LinkAt g a q kv'
  outside : (a : Ptr) → a ∉ xs → a ≢ fresh → g a ≡ h a

module _ (h : Entries) (fresh key : ℕ) (value : Ptr) (nz : fresh ≢ null)
    (unused : h fresh ≡ none) where
  abbrev made : Entries
  made = write h fresh (some (hentry_create key value))

  link_entry-Linked :
      {es : List Ptr} {hd tl : Ptr} {c n : ℕ} {xs : Cells Pair} (b : ℕ)
      → b < length es
      → Seg (orders h) tl null null hd xs
      → Returns
          (Linked h (hashmap es hd tl c n) fresh b (get_or es b null) (key, value) xs)
          (link_entry fresh b (hashmap es hd tl c n) made)
  unfolding link_entry
  link_entry-Linked {es} {c} {n} b lt nil =
      let start = get_or es b null in
      let e1 : HEntry = record (hentry_create key value) { chain = start } in
      rw (bucket_at-ok es b made lt, modify-ok (Points-write h (hentry_create key value) nz))
        (returns {s = write made fresh (some e1)} (record {
          fields = refl;
          order = rw orders-write (cons (Points-write (orders made) (order_part e1) nz) refl nil);
          added = record {
            node = e1;
            points = Points-write made e1 nz;
            next = refl;
            key = refl;
            value = refl;
          };
          kept = λ ne l. LinkAt-write (some e1) ne (LinkAt-write _ ne l);
          outside = λ a o ne. unfold write in ground arith;
        }))
  link_entry-Linked {es} {tl} {c} {n} b lt (cons {p} {q} {v} {xs} e out s) =
      let e0 = hentry_create key value in
      let start = get_or es b null in
      let e1 : HEntry = record e0 { chain = start } in
      let h2 = write made fresh (some e1) in
      let o2 : orders h2
          ≡ write (write (orders h) fresh (some (order_part e0))) fresh (some (order_part e1)) =
        orders-write made fresh (some e1)
        ∙ ap (λ o. write o fresh (some (order_part e1))) (orders-write h fresh (some e0)) in
      let apart : fresh ∉ ((p, v) ∷ xs) =
        Links.not-mem_of_none fresh (cons e out s) (unfold orders in rw unused) in
      let ne_p : p ≢ fresh = ground arith in
      let first : Points (orders h2) p (link v null q) =
        rw o2 (Points-write_ne _ (Points-write_ne _ e ne_p) ne_p) in
      let rest : Seg (orders h2) tl null p q xs =
        rw o2
          (Links.frame-write fresh _ (Links.frame-write fresh _ s (ground arith)) (ground arith)) in
      let t = retarget fresh first out rest in
      let (m, at, part) = entry_at t.points in
      let m' : HEntry = record m { next = fresh } in
      let h3 = write h2 tl (some m') in
      let ne_tl : fresh ≢ tl = ne_of_mem tl fresh ((p, v) ∷ xs) t.inside apart in
      let at1 : Points h3 fresh e1 = Points-write_ne (some m') (Points-write made e1 nz) ne_tl in
      let e2 : HEntry = record e1 { prev = tl } in
      let h4 = write h3 fresh (some e2) in
      let o3 : orders h3 ≡ write (orders h2) tl (some (record t.node { next = fresh })) =
        orders-write h2 tl (some m')
        ∙ ap (λ (l : Link Pair). write (orders h2) tl (some (record l { next = fresh }))) part in
      let chain3 : Seg (orders h3) tl fresh null p ((p, v) ∷ xs) = rw o3 t.chain in
      rw
        (
          bucket_at-ok es b made lt,
          modify-ok (Points-write h e0 nz),
          Points-not_null e,
          Points-not_null t.points,
          modify-ok at,
          modify-ok at1,
        )
        (returns {s = h4} (record {
          fields = refl;
          order = rw orders-write (
              Links.append (Links.frame-write fresh _ chain3 apart)
                (cons (Points-write (orders h3) (order_part e2) nz) refl nil)
                (λ a i. ground (arith, ne_of_mem a fresh ((p, v) ∷ xs))));
          added = record {
            node = e2;
            points = Points-write h3 e2 nz;
            next = refl;
            key = refl;
            value = refl;
          };
          kept = λ ne l. LinkAt-write (some e2) ne (
              LinkAt-relink m' at refl refl refl
                (LinkAt-write (some e1) ne (LinkAt-write (some e0) ne l)));
          outside = λ a o ne.
              let ne_last : a ≢ tl = ne_of_mem tl a ((p, v) ∷ xs) t.inside o in
              unfold write in ground arith;
        }))

-- A bucket of the longer list.
bucket-snoc :
    (c i : ℕ) (xs acc : Cells Pair) (p k v : ℕ)
    → bucket c i (xs ++ (p, (k, v)) ∷ []) acc
      ≡ (if k % c == i then (p, (k, v)) ∷ bucket c i xs acc else bucket c i xs acc)
bucket-snoc c i [] acc p k v = refl
bucket-snoc c i ((a, (j, w)) ∷ xs) acc p k v = bucket-snoc c i xs _ p k v

pub not-mem-bucket : (a c i : ℕ) (xs acc : Cells Pair) → a ∉ xs → a ∉ acc → a ∉ bucket c i xs acc
not-mem-bucket a c i [] acc o o' = o'
not-mem-bucket a c i ((p, (k, v)) ∷ xs) acc o o' =
    not-mem-bucket a c i xs _ (ground arith) (ground arith)

bucket-ne : (a p c i : ℕ) (xs : Cells Pair) → a ∈ bucket c i xs [] → p ∉ xs → a ≢ p
bucket-ne a p c i xs inside out =
    λ same. ne_of_mem a p (bucket c i xs []) inside (not-mem-bucket p c i xs [] out refl) (sym same)

pub holds-snoc :
    (q : ℕ) (xs : Cells Pair) (p k v : ℕ)
    → holds q (xs ++ (p, (k, v)) ∷ []) ≡ (if holds q xs then true else k == q)
holds-snoc q [] p k v = ground arith
holds-snoc q ((a, (j, w)) ∷ xs) p k v = ground (arith, holds-snoc q xs p k v)

DistinctKeys-snoc :
    (xs : Cells Pair) (p k v : ℕ)
    → DistinctKeys xs
    → holds k xs ≡ false
    → DistinctKeys (xs ++ (p, (k, v)) ∷ [])
DistinctKeys-snoc [] p k v d e = (refl, tt)
DistinctKeys-snoc ((a, (j, w)) ∷ xs) p k v d e =
    (ground (arith, holds-snoc j xs p k v, d.0), DistinctKeys-snoc xs p k v d.1 (ground arith))

-- The new entry stands last in the map, and everything else as it was.
pub link_entry-IsMap :
    (h : Entries) (m : HashMap) {xs : Cells Pair} (fresh key : ℕ) (value : Ptr)
    → fresh ≢ null
    → h fresh ≡ none
    → IsMap h m xs
    → holds key xs ≡ false
    → Returns
        (λ m' g.
          IsMap g m' (xs ++ (fresh, (key, value)) ∷ [])
          × (m'.capacity ≡ m.capacity)
          × (m'.size ≡ m.size + 1)
          × ((a : Ptr) → a ∉ xs → a ≢ fresh → g a ≡ h a))
        (link_entry fresh (key % m.capacity) m (write h fresh (some (hentry_create key value))))
link_entry-IsMap h m {xs} fresh key value nz unused is absent =
    Returns-mono
      (link_entry-Linked h fresh key value nz unused {es = m.entries} {hd = m.head} {tl = m.tail}
        {c = m.capacity} {n = m.size} b (omega (arith, is.wide, is.width)) is.order)
      λ m' g l. (
        rw l.fields (record {
          order = l.order;
          counted = omega (arith, is.counted, length-append xs ((fresh, (key, value)) ∷ []));
          keys = DistinctKeys-snoc xs fresh key value is.keys absent;
          wide = is.wide;
          width = length-set m.entries b fresh ∙ is.width;
          chains = λ i lt.
              let kept =
                Chain-frame (is.chains i lt)
                  (λ a q kv inside e. l.kept (bucket-ne a fresh m.capacity i xs inside apart) e) in
              rw
                (
                  get_or-set m.entries b fresh i null (omega (arith, is.wide, is.width)),
                  bucket-snoc m.capacity i xs [] fresh key value,
                )
                (elim (Bool-cases (b == i)) [
                  | inl here ↦ rw here (
                      more
                        (subst (λ j. LinkAt g fresh (get_or m.entries j null) (key, value))
                          ((==_iff b i).0 here) l.added)
                        kept)
                  | inr there ↦ rw there kept
                ]);
        }),
        ap (λ k. k.capacity) l.fields,
        ap (λ k. k.size) l.fields,
        l.outside,
      )
  where
    b : ℕ
    b = key % m.capacity

    apart : fresh ∉ xs
    apart = Links.not-mem_of_none fresh is.order (unfold orders in rw unused)
