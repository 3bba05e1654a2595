-- ===== src/HashMap/View.antt =====
-- What a map stands for: its entries in insertion order. The list that runs through `prev` and
-- `next` is a doubly linked segment of one half of each entry; a chain runs through the other.
use rf_gateway.Base.{
  ℕ, ◌+◌, ◌%◌, ◌≤◌, ◌<◌, ◌≡◌, refl, Bool, true, false, Option, none, some, [], ◌∷◌, arith,
  if◌then◌else◌, ◌==◌, ==_iff, Bool-cases, inl, inr, ap, ◌∙◌, length, get_or, Ptr, null, Points,
  write,
}
use mathlib.Core.Path.{fun_ext}
use rf_gateway.Links.{Link, link, Nodes, Cells, ◌∈◌, Seg, nil, cons}
use rf_gateway.HashMap.{HEntry, Entries, HashMap}

-- A key and its value.
abbrev pub Pair : Type 0
Pair = ℕ × Ptr

abbrev pub order_part : HEntry → Link Pair
order_part n = link (n.key, n.value) n.prev n.next

abbrev pub order_opt : Option HEntry → Option (Link Pair)
order_opt none = none
order_opt (some n) = some (order_part n)

-- The heap, seen as that of the doubly linked list.
unfoldable pub orders : Entries → Nodes Pair
orders h a = order_opt (h a)

pub orders-write :
    (h : Entries) (p : Ptr) (c : Option HEntry)
    → orders (write h p c) ≡ write (orders h) p (order_opt c)
unfolding orders write
orders-write h p c = fun_ext λ a. ground arith

-- `p` holds an entry whose chain goes on at `q`.
pub record LinkAt (h : Entries) (p q : Ptr) (kv : Pair) : Type 0 where
  pub node : HEntry
  pub points : Points h p node
  pub next : node.chain ≡ q
  pub key : node.key ≡ kv.0
  pub value : node.value ≡ kv.1

-- From `p` the `chain` pointers lead through the entries `xs` to a null pointer.
pub data Chain (h : Entries) : Ptr → Cells Pair → Type 0 where
  last : Chain h null []
  more :
      {p q : Ptr} {kv : Pair} {xs : Cells Pair}
      → LinkAt h p q kv
      → Chain h q xs
      → Chain h p ((p, kv) ∷ xs)

pub Chain-frame :
    {h g : Entries} {p : Ptr} {xs : Cells Pair}
    → Chain h p xs
    → ((a q : Ptr) (kv : Pair) → a ∈ xs → LinkAt h a q kv → LinkAt g a q kv)
    → Chain g p xs
Chain-frame last same = last
Chain-frame (more {p} {q} {kv} e s) same =
    more (same p q kv (ground arith) e) (Chain-frame s λ a q kv i. same a q kv (ground arith))

-- The first entry with a key: its address, its value, and whether there is one.
abbrev pub addr_of : ℕ → Cells Pair → Ptr
addr_of key [] = null
addr_of key ((p, (k, v)) ∷ xs) = if k == key then p else addr_of key xs

abbrev pub value_of : ℕ → Cells Pair → Ptr
value_of key [] = null
value_of key ((p, (k, v)) ∷ xs) = if k == key then v else value_of key xs

abbrev pub holds : ℕ → Cells Pair → Bool
holds key [] = false
holds key ((p, (k, v)) ∷ xs) = if k == key then true else holds key xs

abbrev pub DistinctKeys : Cells Pair → Type 0
DistinctKeys [] = Unit {0}
DistinctKeys ((p, (k, v)) ∷ xs) = (holds k xs ≡ false) × DistinctKeys xs

-- The entries of bucket `i`, the latest first.
abbrev pub bucket : (capacity i : ℕ) → Cells Pair → Cells Pair → Cells Pair
bucket capacity i [] acc = acc
bucket capacity i ((p, (k, v)) ∷ xs) acc =
    bucket capacity i xs (if k % capacity == i then (p, (k, v)) ∷ acc else acc)

-- The map `m` holds the entries `xs`, in insertion order.
pub record IsMap (h : Entries) (m : HashMap) (xs : Cells Pair) : Type 0 where
  pub order : Seg (orders h) m.tail null null m.head xs
  pub counted : m.size ≡ length xs
  pub keys : DistinctKeys xs
  pub wide : 0 < m.capacity
  pub width : length m.entries ≡ m.capacity
  pub chains :
      (i : ℕ) → i < m.capacity → Chain h (get_or m.entries i null) (bucket m.capacity i xs [])

pub length-bucket :
    (c i : ℕ) (xs acc : Cells Pair) → length (bucket c i xs acc) ≤ length xs + length acc
length-bucket c i [] acc = omega arith
length-bucket c i ((p, (k, v)) ∷ xs) acc =
    ground (arith, length-bucket c i xs ((p, (k, v)) ∷ acc), length-bucket c i xs acc)

-- A search of the home bucket finds what a search of the whole map finds.
pub addr_of-bucket :
    (c key : ℕ) (xs acc : Cells Pair)
    → DistinctKeys xs
    → addr_of key (bucket c (key % c) xs acc)
      ≡ (if holds key xs then addr_of key xs else addr_of key acc)
addr_of-bucket c key [] acc d = refl
addr_of-bucket c key ((p, (k, v)) ∷ xs) acc d =
    ground (arith, addr_of-bucket c key xs ((p, (k, v)) ∷ acc) d.1, addr_of-bucket c key xs acc d.1)

pub addr_of-null : (key : ℕ) (xs : Cells Pair) → holds key xs ≡ false → addr_of key xs ≡ null
addr_of-null key [] e = refl
addr_of-null key ((p, (k, v)) ∷ xs) e = ground (arith, addr_of-null key xs)

pub value_of-null : (key : ℕ) (xs : Cells Pair) → holds key xs ≡ false → value_of key xs ≡ null
value_of-null key [] e = refl
value_of-null key ((p, (k, v)) ∷ xs) e = ground (arith, value_of-null key xs)

-- The entry behind one half of it.
pub entry_at :
    {h : Entries} {p : Ptr} {l : Link Pair}
    → Points (orders h) p l
    → (n : HEntry) × Points h p n × (order_part n ≡ l)
unfolding orders
entry_at {h} {p} {l} e = go (h p) refl e.holds
  where
    go :
        (c : Option HEntry)
        → h p ≡ c
        → order_opt c ≡ some l
        → (n : HEntry) × Points h p n × (order_part n ≡ l)
    go none eq e' = cc
    go (some n) eq e' = (n, record { ne_null = e.ne_null; holds = eq }, cc)

-- A key that the map holds is at an address with its value.
pub entry-of :
    {h : Entries} {last stop before p : Ptr} {xs : Cells Pair} (key : ℕ)
    → Seg (orders h) last stop before p xs
    → holds key xs ≡ true
    → (n : HEntry) × Points h (addr_of key xs) n × (n.key ≡ key) × (n.value ≡ value_of key xs)
entry-of key nil e = cc
entry-of {h} key (cons {p} {v = kv} {xs} at out s) e = elim (Bool-cases (kv.0 == key)) [
  | inl here ↦
      let (n, points, eq) = entry_at at in
      rw here (n, points, ap (λ l. l.value.0) eq ∙ (==_iff kv.0 key).0 here, ap (λ l. l.value.1) eq)
  | inr there ↦ rw there (entry-of key s (rw there at e))
]
