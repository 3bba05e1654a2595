-- ===== src/HashMap/Resize.antt =====
-- `hashmap_resize`: every entry moves to its new bucket, and nothing else changes.
use mathlib.Core.Path.{subst, fun_ext}
use rf_gateway.Base.{
  Bool, Returns-mono, ℕ, zero, suc, ◌+◌, ◌%◌, ◌<◌, ◌≡◌, refl, ◌≢◌, true, Option, some, List, [],
  ◌∷◌, arith, if◌then◌else◌, ◌==◌, ==_iff, Bool-cases, inl, inr, ap, ◌∙◌, sym, length, get_or, set,
  replicate, Ptr, null, Points, Points-not_null, Points-write, load-ok, modify-ok, write, Returns,
  returns, Returns-bind, Returns-mono, length-set, get_or-set, length-replicate, get_or-replicate,
}
use rf_gateway.Links.{Link, Cells, ◌∈◌, ◌∉◌, Seg, nil, cons}
use rf_gateway.HashMap.{HEntry, Entries, HashMap, rehash, resize}
use rf_gateway.HashMap.Lookup.{bucket_of-ok, bucket_at-ok}
use rf_gateway.HashMap.View.{
  Pair, LinkAt, Chain, last, more, Chain-frame, bucket, IsMap, DistinctKeys, orders, entry_at,
}

-- A write to `chain` alone is not seen in the insertion order.
pub orders-chain :
    {h : Entries} {p : Ptr} {n : HEntry} (q : Ptr)
    → Points h p n
    → orders (write h p (some (record n { chain = q }))) ≡ orders h
unfolding orders write
orders-chain {h} {p} q e = fun_ext λ a. ground (arith, e.holds)

pub LinkAt-write :
    {h : Entries} {a p q : Ptr} {kv : Pair} (c : Option HEntry)
    → a ≢ p
    → LinkAt h a q kv
    → LinkAt (write h p c) a q kv
unfolding write
LinkAt-write c ne e = record {
  node = e.node;
  points = record { ne_null = e.points.ne_null; holds = ground (arith, e.points.holds, ne) };
  next = e.next;
  key = e.key;
  value = e.value;
}

-- Bucket `i` after an entry was moved to the front of its own.
abbrev moved : (c : ℕ) → Ptr → Pair → (ℕ → Cells Pair) → ℕ → Cells Pair
moved c p kv acc i = if kv.0 % c == i then (p, kv) ∷ acc i else acc i

abbrev Chains : Entries → (c : ℕ) → List Ptr → (ℕ → Cells Pair) → Type 0
Chains h c buckets acc = (i : ℕ) → i < c → Chain h (get_or buckets i null) (acc i)

Chains-moved :
    {h : Entries} (c : ℕ) (buckets : List Ptr) (acc : ℕ → Cells Pair) {p : Ptr} {n : HEntry}
    {kv : Pair}
    → 0 < c
    → length buckets ≡ c
    → Points h p n
    → n.key ≡ kv.0
    → n.value ≡ kv.1
    → ((i a : ℕ) → a ∈ acc i → a ≢ p)
    → Chains h c buckets acc
    → Chains
        (write h p (some (record n { chain = get_or buckets (kv.0 % c) null })))
        c
        (set buckets (kv.0 % c) p)
        (moved c p kv acc)
Chains-moved {h} c buckets acc {p} {n} {kv} pos width e key value apart chains i lt =
    let new : HEntry = record n { chain = get_or buckets (kv.0 % c) null } in
    let kept =
      Chain-frame (chains i lt)
        (λ a q kv' inside l. LinkAt-write (some new) (apart i a inside) l) in
    rw (get_or-set buckets (kv.0 % c) p i null (omega arith)) (elim (Bool-cases (kv.0 % c == i)) [
      | inl here ↦ rw here (
          more
            (record {
              node = new;
              points = Points-write h new e.ne_null;
              next = ap (λ j. get_or buckets j null) ((==_iff (kv.0 % c) i).0 here);
              key = key;
              value = value;
            })
            kept)
      | inr there ↦ rw there kept
    ])

rehash-Chains :
    (k c : ℕ) (buckets : List Ptr) (acc : ℕ → Cells Pair) {h : Entries} {lst before p : Ptr}
    {zs : Cells Pair}
    → 0 < c
    → length buckets ≡ c
    → Seg (orders h) lst null before p zs
    → Chains h c buckets acc
    → ((i a : ℕ) → a ∈ acc i → a ∉ zs)
    → length zs < k
    → Returns
        (λ bs g.
          (length bs ≡ c)
          × (orders g ≡ orders h)
          × Chains g c bs (λ i. bucket c i zs (acc i))
          × ((a : Ptr) → a ∉ zs → g a ≡ h a))
        (rehash k c buckets p h)
unfolding rehash
rehash-Chains zero c buckets acc pos width s chains apart fuel = absurd (omega arith)
rehash-Chains (suc k) c buckets acc {h} pos width nil chains apart fuel =
    returns {s = h} (width, refl, chains, λ a o. refl)
rehash-Chains (suc k) c buckets acc {h} {lst} pos width (cons {p} {q} {v = kv} {xs} e out s) chains
      apart fuel =
    let (n, at, part) = entry_at e in
    let key : n.key ≡ kv.0 = ap (λ (l : Link Pair). l.value.0) part in
    let value : n.value ≡ kv.1 = ap (λ (l : Link Pair). l.value.1) part in
    let next : n.next ≡ q = ap (λ (l : Link Pair). l.next) part in
    let start = get_or buckets (kv.0 % c) null in
    let new : HEntry = record n { chain = start } in
    let same = orders-chain start at in
    rw
      (
        Points-not_null e,
        load-ok at,
        key,
        bucket_of-ok kv.0 c h pos,
        bucket_at-ok buckets (kv.0 % c) h (omega arith),
        modify-ok at,
        load-ok (Points-write h new e.ne_null),
      )
      (Returns-mono
        (rehash-Chains k c (set buckets (kv.0 % c) p) (moved c p kv acc) pos
          (length-set buckets (kv.0 % c) p ∙ width)
          (subst (λ r. Seg (orders (write h p (some new))) lst null p r xs) (sym next)
            (subst (λ o. Seg o lst null p q xs) (sym same) s))
          (Chains-moved c buckets acc pos width at key value
            (λ i a inside. ground (arith, apart i a inside)) chains)
          (λ i a inside. ground (arith, apart i a, out)) (omega arith))
        λ bs g (width', same', chains', kept).
          (width', same' ∙ same, chains', λ a o. unfold write in ground (arith, kept a)))

-- No entry, a null pointer in every bucket.
replicate-Chains : (h : Entries) (c : ℕ) → Chains h c (replicate c null) (λ i. [])
replicate-Chains h c i lt = rw (get_or-replicate c null i) last

-- What `hashmap_resize` with memory ends in: all but the entries of the map are as they were.
pub record Resized (h : Entries) (xs : Cells Pair) (c : ℕ) (r : Bool × HashMap) (g : Entries)
    : Type 0 where
  pub done : r.0 ≡ true
  pub map : IsMap g r.1 xs
  pub capacity : r.1.capacity ≡ c
  pub order : orders g ≡ orders h
  pub outside : (a : Ptr) → a ∉ xs → g a ≡ h a

pub resize-Resized :
    (h : Entries) (m : HashMap) {xs : Cells Pair} (c : ℕ)
    → 0 < c
    → Seg (orders h) m.tail null null m.head xs
    → m.size ≡ length xs
    → DistinctKeys xs
    → Returns (Resized h xs c) (resize true m c h)
unfolding resize
resize-Resized h m {xs} c pos order counted keys =
    Returns-bind
      (rehash-Chains (m.size + 1) c (replicate c null) (λ i. []) pos (length-replicate c null) order
        (replicate-Chains h c) (λ i a inside. absurd (cc)) (omega arith))
      λ bs g (width, same, chains, kept). returns (record {
        done = refl;
        map = record {
          order = subst (λ o. Seg o m.tail null null m.head xs) (sym same) order;
          counted = counted;
          keys = keys;
          wide = pos;
          width = width;
          chains = chains;
        };
        capacity = refl;
        order = same;
        outside = kept;
      })

-- `hashmap_resize` with memory for the new buckets: the map has that many, and the same entries in
-- the same order. Only `chain` pointers are written.
pub resize-IsMap :
    (h : Entries) (m : HashMap) {xs : Cells Pair} (c : ℕ)
    → 0 < c
    → Seg (orders h) m.tail null null m.head xs
    → m.size ≡ length xs
    → DistinctKeys xs
    → Returns
        (λ (done, m') g. (done ≡ true) × IsMap g m' xs × (m'.capacity ≡ c) × (orders g ≡ orders h))
        (resize true m c h)
resize-IsMap h m {xs} c pos order counted keys =
    Returns-mono (resize-Resized h m c pos order counted keys)
      λ r g d. (d.done, d.map, d.capacity, d.order)
