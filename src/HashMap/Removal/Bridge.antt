-- ===== src/HashMap/Removal/Bridge.antt =====
-- The map that `hashmap_remove` leaves is well-formed.
use mathlib.Core.Path.{subst}
use rf_gateway.Base.{
  ℕ, ◌+◌, ◌%◌, ◌<◌, ◌≡◌, refl, ◌≢◌, true, false, Bool-cases, inl, inr, none, [], arith, ◌==◌,
  ==_iff, if◌then◌else◌, ok, Returns, returns, length, length-set, get_or, get_or-set, Ptr, null,
  Points, write, ap, ◌∙◌, sym,
}
use rf_gateway.Links.{Link, link, Cells, has, ◌∈◌, ◌∉◌, Seg}
use rf_gateway.Links.Split.{less, less-absent, split, Split}
use rf_gateway.Links.Join.{joined}
use rf_gateway.HashMap.{HEntry, Entries, HashMap, remove, remove_loop, unlink_entry}
use rf_gateway.HashMap.Assign.{has-addr_of}
use rf_gateway.HashMap.Lookup.{bucket_of-ok, bucket_at-ok}
use rf_gateway.HashMap.Removal.Edit.{Live}
use rf_gateway.HashMap.Removal.Unlink.{
  heap_less, map_less, unlink_entry-ok, orders-heap_less, LinkAt-less, LinkAt-before,
}
use rf_gateway.HashMap.Removal.Walk.{Distinct, prev_of, prev_of-or, remove_loop-absent, Chain-less}
use rf_gateway.HashMap.Removal.Fewer.{
  Seg-Distinct, Distinct-bucket, bucket-less, holds-bucket, one_bucket, length-less,
  DistinctKeys-less,
}
use rf_gateway.HashMap.View.{
  Pair, orders, order_part, LinkAt, Chain, Chain-frame, addr_of, value_of, holds, bucket, IsMap,
  length-bucket, addr_of-bucket, entry_at, entry-of,
}
use rf_gateway.HashMap.Removal.Ends.{
  left_end, right_end, Live-orders, Chain-Points, Chain-null, prev_of-Live,
}

module _ {h : Entries} {m : HashMap} {xs : Cells Pair} (is : IsMap h m xs) (key : ℕ) where
  abbrev pub b : ℕ
  b = key % m.capacity

  abbrev pub zs : Cells Pair
  zs = bucket m.capacity b xs []

  lt : b < m.capacity
  lt = omega (arith, is.wide)

  pub home : Chain h (get_or m.entries b null) zs
  home = is.chains b lt

  pub fuel : length zs < m.size + 1
  fuel = omega (arith, is.counted, length-bucket m.capacity b xs [])

  pub holds-home : holds key zs ≡ holds key xs
  holds-home = holds-bucket m.capacity key xs [] ∙ ground arith

  pub remove-absent : holds key xs ≡ false → remove m key h ≡ ok (null, m) h
  unfolding remove
  remove-absent miss =
      rw
        (
          bucket_of-ok key m.capacity h is.wide,
          bucket_at-ok m.entries b h (omega (arith, is.width, lt)),
          remove_loop-absent m key b (m.size + 1) null home (holds-home ∙ miss) fuel,
        )
        refl

  module _ (hit : holds key xs ≡ true) where
    abbrev t : Ptr
    t = addr_of key xs

    same_t : addr_of key zs ≡ t
    same_t = addr_of-bucket m.capacity key xs [] is.keys ∙ rw hit refl

    inside : t ∈ xs
    inside = has-addr_of key t xs hit refl

    parts : Split (orders h) m.tail null null m.head t xs
    parts = split t is.order inside

    distinct : Distinct xs
    distinct = Seg-Distinct is.order

    -- The entry, as the walk along the chain finds it.
    module _ (n : HEntry) (at : Points h t n) where
      abbrev prev : Ptr
      prev = prev_of key null zs

      part : order_part n ≡ link parts.item parts.mid parts.next
      part =
          let (n', at', eq) = entry_at parts.points in
          let same : n' ≡ n = ground (arith, at.holds, at'.holds) in ap order_part (sym same) ∙ eq

      prev-Live : Live h n.prev
      prev-Live =
          rw (ap (λ (l : Link Pair). l.prev) part) (Live-orders h parts.mid (left_end parts.left))

      next-Live : Live h n.next
      next-Live =
          rw (ap (λ (l : Link Pair). l.next) part)
            (Live-orders h parts.next (right_end parts.right))

      abbrev g : Entries
      g = heap_less h m b prev t n at (prev_of-Live key home) prev-Live next-Live

      abbrev m' : HashMap
      m' = map_less h m b prev t n at (prev_of-Live key home) prev-Live next-Live

      order_less : Seg (orders g) m'.tail null null m'.head (less t xs)
      order_less =
          rw
            (
              orders-heap_less h m b prev t n at (prev_of-Live key home) prev-Live next-Live,
              ap (λ (l : Link Pair). l.prev) part,
              ap (λ (l : Link Pair). l.next) part,
              parts.splits,
            )
            (joined (orders h) parts.left parts.right parts.out_front parts.out_back parts.apart)

      keep : (a q : Ptr) (kv : Pair) → a ≢ t → a ≢ prev → LinkAt h a q kv → LinkAt g a q kv
      keep a q kv ne ne' e =
          LinkAt-less h m b prev t n at (prev_of-Live key home) prev-Live next-Live ne ne' e

      chain_here :
          Chain g
            (if t == get_or m.entries b null then n.chain else get_or m.entries b null)
            (less t zs)
      chain_here =
          Chain-less key t prev n.chain
            (λ q kv e.
              let same : e.node ≡ n = ground (arith, e.points.holds, at.holds) in
              sym e.next ∙ ap (λ (k : HEntry). k.chain) same)
            keep
            (λ q kv ne e.
              LinkAt-before h m b prev t n at (prev_of-Live key home) prev-Live next-Live ne e)
            null home (Distinct-bucket m.capacity b xs [] distinct tt (λ a i. refl))
            (Chain-null home) (holds-home ∙ hit) same_t refl

      t_home : t ∈ zs
      t_home = has-addr_of key t zs (holds-home ∙ hit) same_t

      -- Neither the entry nor the one before it is in another bucket.
      elsewhere :
          (i a : ℕ) → i < m.capacity → b ≢ i → a ∈ bucket m.capacity i xs [] → (a ≢ t) × (a ≢ prev)
      elsewhere i a small ne there = (
        λ same. ne (
            one_bucket t m.capacity b i xs distinct t_home
              (subst (λ x. x ∈ bucket m.capacity i xs []) same there)),
        λ same. elim (prev_of-or key null zs) [
          | inl nothing ↦
              let (k, e) = Chain-Points a (is.chains i small) there in
              absurd (e.ne_null (same ∙ nothing))
          | inr here ↦ ne (
              one_bucket prev m.capacity b i xs distinct here
                (subst (λ x. x ∈ bucket m.capacity i xs []) same there))
        ],
      )

      entries_less :
          (i : ℕ)
          → get_or m'.entries i null ≡ (
              if b == i
              then (if t == get_or m.entries b null then n.chain else get_or m.entries b null)
              else get_or m.entries i null)
      entries_less i = elim (Bool-cases (t == get_or m.entries b null)) [
        | inl first ↦ rw first (get_or-set m.entries b n.chain i null (omega (arith, is.width, lt)))
        | inr later ↦ rw later (elim (Bool-cases (b == i)) [
          | inl here ↦ rw here (ap (λ j. get_or m.entries j null) (sym ((==_iff b i).0 here)))
          | inr other ↦ rw other refl
        ])
      ]

      chains_less :
          (i : ℕ)
          → i < m.capacity
          → Chain g (get_or m'.entries i null) (bucket m.capacity i (less t xs) [])
      chains_less i small =
          rw (entries_less i, bucket-less m.capacity i t xs [])
            (elim (Bool-cases (b == i)) [
              | inl here ↦ rw here (
                  subst
                    (λ j.
                      Chain g
                        (if t == get_or m.entries b null then n.chain else get_or m.entries b null)
                        (less t (bucket m.capacity j xs [])))
                    ((==_iff b i).0 here) chain_here)
              | inr other ↦
                  let ne : b ≢ i = ground arith in
                  let out : t ∉ bucket m.capacity i xs [] =
                    elim (Bool-cases (has t (bucket m.capacity i xs []))) [
                      | inl there ↦ absurd ((elsewhere i t small ne there).0 refl)
                      | inr away ↦ away
                    ] in
                  rw (other, less-absent t (bucket m.capacity i xs []) out)
                    (Chain-frame (is.chains i small) λ a q kv there e.
                      let (ne_t, ne_prev) = elsewhere i a small ne there in
                      keep a q kv ne_t ne_prev e)
            ])

      IsMap-less : IsMap g m' (less t xs)
      IsMap-less = record {
        order = order_less;
        counted = omega (arith, is.counted, length-less t xs distinct inside);
        keys = DistinctKeys-less t xs is.keys;
        wide = is.wide;
        width = elim (Bool-cases (t == get_or m.entries b null)) [
          | inl first ↦ rw first (length-set m.entries b n.chain ∙ is.width)
          | inr later ↦ rw later is.width
        ];
        chains = chains_less;
      }

  pub remove-hit :
      (hit : holds key xs ≡ true) (n : HEntry)
      → Points h (addr_of key zs) n
      → remove_loop (m.size + 1) m key b null (get_or m.entries b null) h
        ≡ unlink_entry m b (prev_of key null zs) (addr_of key zs) n h
      → Returns
          (λ r g'.
            (r.0 ≡ value_of key xs)
            × IsMap g' r.1 (less (addr_of key xs) xs)
            × (g' (addr_of key xs) ≡ none))
          (remove m key h)
  unfolding remove
  remove-hit hit n at' runs =
      let at : Points h (t hit) n = subst (λ x. Points h x n) (same_t hit) at' in
      let (n', points, _, value) = entry-of key is.order hit in
      let same : n' ≡ n = ground (arith, at.holds, points.holds) in
      rw
        (
          bucket_of-ok key m.capacity h is.wide,
          bucket_at-ok m.entries b h (omega (arith, is.width, lt)),
          runs,
          same_t hit,
          unlink_entry-ok h m b (prev hit n at) (t hit) n at (prev_of-Live key home)
              (prev-Live hit n at) (next-Live hit n at) (omega (arith, is.width, lt)),
        )
        (returns (
          ap (λ (k : HEntry). k.value) (sym same) ∙ value,
          IsMap-less hit n at,
          unfold write in ground arith,
        ))
