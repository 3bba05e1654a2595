-- ===== src/HashMap/Lookup.antt =====
-- `hashmap_get` and `hashmap_contains` against the entries that the map stands for.
use rf_gateway.Base.{
  ℕ, zero, suc, ◌+◌, ◌%◌, ◌<◌, ◌≡◌, refl, List, [], arith, ◌==◌, Bool-cases, inl, inr, length,
  get_or, Ptr, null, Points-not_null, load-ok, ok, lt→ltb, ne→==-false,
}
use rf_gateway.Links.{Cells}
use rf_gateway.HashMap.{Entries, HashMap, bucket_at, bucket_of, find_loop, find, get, contains}
use rf_gateway.HashMap.View.{
  Pair, Chain, last, more, addr_of, value_of, holds, IsMap, length-bucket, addr_of-bucket,
  addr_of-null, value_of-null, entry-of,
}

pub find_loop-addr_of :
    (k : ℕ) (key : ℕ) {h : Entries} {p : Ptr} {xs : Cells Pair}
    → Chain h p xs
    → length xs < k
    → find_loop k key p h ≡ ok (addr_of key xs) h
unfolding find_loop
find_loop-addr_of zero key s fuel = absurd (omega arith)
find_loop-addr_of (suc k) key last fuel = refl
find_loop-addr_of (suc k) key (more {p} {kv} e s) fuel =
    rw (Points-not_null e.points, load-ok e.points, e.key, e.next)
      (elim (Bool-cases (kv.0 == key)) [
        | inl here ↦ rw here
        | inr there ↦ rw there (find_loop-addr_of k key s (omega arith))
      ])

pub bucket_of-ok : (key c : ℕ) (h : Entries) → 0 < c → bucket_of key c h ≡ ok (key % c) h
unfolding bucket_of
bucket_of-ok key c h pos = rw (ne→==-false c 0 (omega arith))

pub bucket_at-ok :
    (buckets : List Ptr) (i : ℕ) (h : Entries)
    → i < length buckets
    → bucket_at buckets i h ≡ ok (get_or buckets i null) h
unfolding bucket_at
bucket_at-ok buckets i h lt = rw (lt→ltb i (length buckets) lt)

module _ {h : Entries} {m : HashMap} {xs : Cells Pair} (is : IsMap h m xs) (key : ℕ) where
  pub find-addr_of : find m key h ≡ ok (addr_of key xs) h
  unfolding find
  find-addr_of =
      let i = key % m.capacity in
      let lt : i < m.capacity = omega (arith, is.wide) in
      rw
        (
          bucket_of-ok key m.capacity h is.wide,
          bucket_at-ok m.entries i h (omega (arith, is.width)),
          find_loop-addr_of (m.size + 1) key (is.chains i lt)
              (omega (arith, is.counted, length-bucket m.capacity i xs [])),
          addr_of-bucket m.capacity key xs [] is.keys,
        )
        (ground (arith, addr_of-null key xs))

  -- `hashmap_get` returns the value under the key, null if there is none, and changes nothing.
  pub get-value_of : get m key h ≡ ok (value_of key xs) h
  unfolding get
  get-value_of = elim (Bool-cases (holds key xs)) [
    | inl hit ↦
        let (n, points, _, value) = entry-of key is.order hit in
        rw (find-addr_of, Points-not_null points, load-ok points, value)
    | inr miss ↦ rw (find-addr_of, addr_of-null key xs miss, value_of-null key xs miss)
  ]

  -- `hashmap_contains` says whether an entry has the key.
  pub contains-holds : contains m key h ≡ ok (holds key xs) h
  unfolding contains
  contains-holds = elim (Bool-cases (holds key xs)) [
    | inl hit ↦
        let (n, points, _, value) = entry-of key is.order hit in
        rw (find-addr_of, Points-not_null points, hit)
    | inr miss ↦ rw (find-addr_of, addr_of-null key xs miss, miss)
  ]
