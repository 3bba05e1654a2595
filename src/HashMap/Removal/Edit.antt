-- ===== src/HashMap/Removal/Edit.antt =====
-- `hashmap_remove`: the writes to single entries, seen in the insertion order and in the chains.
use rf_gateway.Base.{
  ◌≡◌, refl, ◌≢◌, Bool-cases, inl, inr, Option, none, some, arith, ◌==◌, ==_iff, if◌then◌else◌, ok,
  pure, Ptr, null, Points, Points-not_null, Points-write, modify, modify-ok, write, ◌∙◌,
}
use rf_gateway.Links.Join.{set_next, set_prev, with_next, with_prev}
use rf_gateway.HashMap.{HEntry, Entries}
use rf_gateway.HashMap.Resize.{LinkAt-write, orders-chain}
use rf_gateway.HashMap.View.{Pair, order_opt, orders, orders-write, LinkAt}

abbrev edited : (HEntry → HEntry) → Option HEntry → Option HEntry
edited f none = none
edited f (some n) = some (f n)

-- `if (a) …`, a change of the entry at `a`.
abbrev pub edit : Entries → Ptr → (HEntry → HEntry) → Entries
edit h a f = if a == null then h else write h a (edited f (h a))

-- A null pointer, or the address of an entry.
abbrev pub Live : Entries → Ptr → Type 0
Live h a = a ≢ null → (n : HEntry) × Points h a n

pub edit-ok :
    (h : Entries) (a : Ptr) (f : HEntry → HEntry)
    → Live h a
    → (if a == null then pure tt else modify a f) h ≡ ok tt (edit h a f)
edit-ok h a f live = elim (Bool-cases (a == null)) [
  | inl nothing ↦ rw nothing refl
  | inr there ↦ let (n, e) = live (ground arith) in rw (there, modify-ok e, e.holds) refl
]

pub Live-edit : (h : Entries) (a b : Ptr) (f : HEntry → HEntry) → Live h a → Live (edit h b f) a
unfolding write
Live-edit h a b f live nz =
    let (n, e) = live nz in
    elim (Bool-cases (b == null)) [
      | inl nothing ↦ rw nothing (n, e)
      | inr there ↦ elim (Bool-cases (a == b)) [
        | inl here ↦
            rw there
              (f n, record { ne_null = nz; holds = rw (here, ← (==_iff a b).0 here, e.holds) refl })
        | inr other ↦ rw there (n, record { ne_null = nz; holds = rw (other, e.holds) refl })
      ]
    ]

-- Where the change keeps the chain, the key and the value, the chains are as before.
pub LinkAt-edit :
    {h : Entries} {a q : Ptr} {kv : Pair} (b : Ptr) (f : HEntry → HEntry)
    → ((n : HEntry) → ((f n).chain ≡ n.chain) × ((f n).key ≡ n.key) × ((f n).value ≡ n.value))
    → LinkAt h a q kv
    → LinkAt (edit h b f) a q kv
unfolding write
LinkAt-edit {h} {a} b f keeps e = elim (Bool-cases (b == null)) [
  | inl nothing ↦ rw nothing e
  | inr there ↦ elim (Bool-cases (a == b)) [
    | inl here ↦
        let (chain, key, value) = keeps e.node in
        rw there (record {
          node = f e.node;
          points = record {
            ne_null = e.points.ne_null;
            holds = rw (here, ← (==_iff a b).0 here, e.points.holds) refl;
          };
          next = chain ∙ e.next;
          key = key ∙ e.key;
          value = value ∙ e.value;
        })
    | inr other ↦ rw there (LinkAt-write _ (ground arith) e)
  ]
]

module _ (h : Entries) (a q : Ptr) where
  pub orders-edit_next : orders (edit h a (λ n. record n { next = q })) ≡ set_next (orders h) a q
  unfolding orders
  orders-edit_next = elim (Bool-cases (a == null)) [
    | inl nothing ↦ rw nothing refl
    | inr there ↦ rw there (go (h a))
  ]
    where
      go :
          (c : Option HEntry)
          → orders (write h a (edited (λ n. record n { next = q }) c))
            ≡ write (orders h) a (with_next q (order_opt c))
      go none = orders-write h a none
      go (some n) = orders-write h a (some (record n { next = q }))

  pub orders-edit_prev : orders (edit h a (λ n. record n { prev = q })) ≡ set_prev (orders h) a q
  unfolding orders
  orders-edit_prev = elim (Bool-cases (a == null)) [
    | inl nothing ↦ rw nothing refl
    | inr there ↦ rw there (go (h a))
  ]
    where
      go :
          (c : Option HEntry)
          → orders (write h a (edited (λ n. record n { prev = q }) c))
            ≡ write (orders h) a (with_prev q (order_opt c))
      go none = orders-write h a none
      go (some n) = orders-write h a (some (record n { prev = q }))

  pub orders-edit_chain : Live h a → orders (edit h a (λ n. record n { chain = q })) ≡ orders h
  orders-edit_chain live = elim (Bool-cases (a == null)) [
    | inl nothing ↦ rw nothing refl
    | inr there ↦ let (n, e) = live (ground arith) in rw (there, e.holds) (orders-chain q e)
  ]

  -- The entry before gets a new successor in its chain.
  pub LinkAt-rechained :
      {q' : Ptr} {kv : Pair}
      → LinkAt h a q' kv
      → LinkAt (edit h a (λ n. record n { chain = q })) a q kv
  LinkAt-rechained e =
      rw (Points-not_null e.points, e.points.holds)
        (record {
          node = record e.node { chain = q };
          points = Points-write h (record e.node { chain = q }) e.points.ne_null;
          next = refl;
          key = e.key;
          value = e.value;
        })

pub LinkAt-edit_ne :
    {h : Entries} {a q : Ptr} {kv : Pair} (b : Ptr) (f : HEntry → HEntry)
    → a ≢ b
    → LinkAt h a q kv
    → LinkAt (edit h b f) a q kv
LinkAt-edit_ne b f ne e = elim (Bool-cases (b == null)) [
  | inl nothing ↦ rw nothing e
  | inr there ↦ rw there (LinkAt-write _ ne e)
]
