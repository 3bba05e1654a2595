-- ===== src/HashMap/Removal/Unlink.antt =====
-- The statements of `hashmap_remove` that take an entry out.
use rf_gateway.Base.{
  ℕ, ◌-◌, ◌<◌, ◌≡◌, refl, ◌≢◌, none, ◌==◌, if◌then◌else◌, ok, Ptr, null, Points, free-ok, write,
  length, get_or, set, ap, ◌∙◌,
}
use rf_gateway.Links.Join.{unlinked, set_next, set_prev}
use rf_gateway.HashMap.{HEntry, Entries, HashMap, unlink_entry}
use rf_gateway.HashMap.Lookup.{bucket_at-ok}
use rf_gateway.HashMap.Removal.Edit.{
  edit, edit-ok, Live, Live-edit, LinkAt-edit, LinkAt-edit_ne, LinkAt-rechained, orders-edit_next,
  orders-edit_prev, orders-edit_chain,
}
use rf_gateway.HashMap.Resize.{LinkAt-write}
use rf_gateway.HashMap.View.{Pair, orders, orders-write, LinkAt}

module _ (h : Entries) (m : HashMap) (b : ℕ) (previous t : Ptr) (n : HEntry) (at : Points h t n)
    (before : Live h previous) (prev : Live h n.prev) (next : Live h n.next) where
  abbrev h1 : Entries
  h1 = edit h previous (λ k. record k { chain = n.chain })

  abbrev h2 : Entries
  h2 = edit h1 n.prev (λ k. record k { next = n.next })

  abbrev h3 : Entries
  h3 = edit h2 n.next (λ k. record k { prev = n.prev })

  -- The heap and the map afterwards.
  abbrev pub heap_less : Entries
  heap_less = write h3 t none

  abbrev pub map_less : HashMap
  map_less = record {
    entries = if t == get_or m.entries b null then set m.entries b n.chain else m.entries;
    head = if t == m.head then n.next else m.head;
    tail = if t == m.tail then n.prev else m.tail;
    capacity = m.capacity;
    size = m.size - 1;
  }

  pub unlink_entry-ok :
      b < length m.entries → unlink_entry m b previous t n h ≡ ok (n.value, map_less) heap_less
  unfolding unlink_entry
  unlink_entry-ok lt =
      let prev1 = Live-edit h n.prev previous (λ k. record k { chain = n.chain }) prev in
      let next1 = Live-edit h n.next previous (λ k. record k { chain = n.chain }) next in
      let next2 = Live-edit h1 n.next n.prev (λ k. record k { next = n.next }) next1 in
      let here1 = Live-edit h t previous (λ k. record k { chain = n.chain }) (λ nz. (n, at)) in
      let here2 = Live-edit h1 t n.prev (λ k. record k { next = n.next }) here1 in
      let here3 = Live-edit h2 t n.next (λ k. record k { prev = n.prev }) here2 in
      let (last, live) = here3 at.ne_null in
      rw
        (
          edit-ok h previous (λ k. record k { chain = n.chain }) before,
          bucket_at-ok m.entries b h1 lt,
          edit-ok h1 n.prev (λ k. record k { next = n.next }) prev1,
          edit-ok h2 n.next (λ k. record k { prev = n.prev }) next2,
          free-ok live,
        )
        refl

  pub orders-heap_less : orders heap_less ≡ unlinked (orders h) t n.prev n.next
  orders-heap_less =
      orders-write h3 t none
      ∙ ap (λ o. write o t none)
          (orders-edit_prev h2 n.next n.prev
            ∙ ap (λ o. set_prev o n.next n.prev)
                (orders-edit_next h1 n.prev n.next
                  ∙ ap (λ o. set_next o n.prev n.next)
                      (orders-edit_chain h previous n.chain before)))

  pub LinkAt-less :
      {a q : Ptr} {kv : Pair} → a ≢ t → a ≢ previous → LinkAt h a q kv → LinkAt heap_less a q kv
  LinkAt-less ne ne' e = LinkAt-write none ne (
      LinkAt-edit n.next (λ k. record k { prev = n.prev }) (λ k. (refl, refl, refl))
        (LinkAt-edit n.prev (λ k. record k { next = n.next }) (λ k. (refl, refl, refl))
          (LinkAt-edit_ne previous (λ k. record k { chain = n.chain }) ne' e)))

  pub LinkAt-before :
      {q : Ptr} {kv : Pair}
      → previous ≢ t
      → LinkAt h previous q kv
      → LinkAt heap_less previous n.chain kv
  LinkAt-before ne e = LinkAt-write none ne (
      LinkAt-edit n.next (λ k. record k { prev = n.prev }) (λ k. (refl, refl, refl))
        (LinkAt-edit n.prev (λ k. record k { next = n.next }) (λ k. (refl, refl, refl))
          (LinkAt-rechained h previous n.chain e)))
