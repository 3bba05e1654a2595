-- ===== src/Rf/Life/Free.antt =====
-- `rfDeInit` of rf.c gives back every device, every queue and every entry.
use rf_gateway.Base.{
  ℕ, zero, suc, ◌+◌, ◌<◌, ◌≡◌, ◌≢◌, refl, Bool, true, false, ◌&&◌, ◌||◌, Bool-cases, inl, inr, none,
  some, [], ◌∷◌, ◌++◌, arith, ◌==◌, if◌then◌else◌, length, Ptr, null, Heap, Returns, returns,
  Returns-bind, Returns-mono, Points, Points-not_null, load-ok, free-ok, write, ne→==-false, ap,
  ◌∙◌,
}
use rf_gateway.Iterator.{Iterator, iterator_create}
use rf_gateway.Links
use rf_gateway.Links.{Cells, has, has-append, ◌∈◌, ◌∉◌, Seg, nil, cons}
use rf_gateway.LinkedList.{Handle, ListNodes}
use rf_gateway.LinkedList.Valid.{IsList}
use rf_gateway.LinkedList.Loops.{destroy-Without, Without, Apart}
use rf_gateway.HashMap.Bulk.Clear.{destroy-entries}
use rf_gateway.HashMap.Iterate.{iterator, next_entry}
use rf_gateway.HashMap.View.{Pair, orders, entry_at, IsMap}
use rf_gateway.Rf.{Rf, Device, in_entries, in_devices, in_nodes}
use rf_gateway.Rf.Parts.{in_entries-bind, in_nodes-bind}
use rf_gateway.Rf.Life.Open.{descriptors, close_sock-descriptors}
use rf_gateway.Rf.Life.{de_init, free_all, free_devices, destroy_queue, sock_open}

-- `a` is the value of an entry.
abbrev pub stores : Ptr → Cells Pair → Bool
stores a [] = false
stores a ((p, (k, v)) ∷ xs) = (a == v) || stores a xs

-- The values of the entries `xs` are different live devices, each with a queue of its own; `all` are
-- the nodes of all queues.
pub data Owned (devices : Heap Device) (nodes : ListNodes) : Cells Pair → Cells Ptr → Type 0 where
  no_device : Owned devices nodes [] []
  device :
      {p k v : Ptr} {xs : Cells Pair} {d : Device} {q : Handle} {qs rest : Cells Ptr}
      → Points devices v d
      → stores v xs ≡ false
      → d.packet_queue ≡ some q
      → IsList nodes q qs
      → Apart rest qs
      → Owned devices nodes xs rest
      → Owned devices nodes ((p, (k, v)) ∷ xs) (qs ++ rest)

Owned-frame :
    {D D' : Heap Device} {N N' : ListNodes} {xs : Cells Pair} {all : Cells Ptr}
    → Owned D N xs all
    → ((a : Ptr) → stores a xs ≡ true → D' a ≡ D a)
    → ((a : Ptr) → a ∈ all → N' a ≡ N a)
    → Owned D' N' xs all
Owned-frame no_device same same' = no_device
Owned-frame (device {v} {xs} {qs} {rest} at new has_queue is apart o) same same' =
    device (record { ne_null = at.ne_null; holds = same v (ground arith) ∙ at.holds }) new has_queue
      (record {
        chain = Links.frame is.chain λ a i. same' a (ground (arith, has-append a qs rest));
        counted = is.counted;
      })
      apart
      (Owned-frame o (λ a i. same a (ground arith))
        λ a i. same' a (ground (arith, has-append a qs rest)))

-- What the loop leaves: the devices and the nodes of their queues are gone, and nothing else changed.
pub record Freed (w : Rf) (xs : Cells Pair) (all : Cells Ptr) (w' : Rf) : Type 0 where
  pub devices : (a : Ptr) → w'.devices a ≡ (if stores a xs then none else w.devices a)
  pub nodes : (a : Ptr) → w'.nodes a ≡ (if has a all then none else w.nodes a)
  pub rest : w' ≡ record w { devices = w'.devices; nodes = w'.nodes }

after_device :
    (w : Rf) {p k : Ptr} (v : Ptr) (xs : Cells Pair) (qs rest : Cells Ptr) (g : ListNodes) (w' : Rf)
    → Without qs w.nodes g
    → Freed (record w { nodes = g; devices = write w.devices v none }) xs rest w'
    → Freed w ((p, (k, v)) ∷ xs) (qs ++ rest) w'
after_device w v xs qs rest g w' gone f = record {
  devices = λ a. unfold write in ground (arith, f.devices a);
  nodes = λ a. ground (arith, f.nodes a, gone a, has-append a qs rest);
  rest = f.rest;
}

free_devices-Freed :
    (k : ℕ) (it : Iterator) (w : Rf) {last before : Ptr} {xs : Cells Pair} {all : Cells Ptr}
    → Seg (orders w.entries) last null before it.iterable xs
    → Owned w.devices w.nodes xs all
    → length xs < k
    → Returns (λ u w'. Freed w xs all w') (free_devices k it w)
unfolding free_devices next_entry destroy_queue in_entries in_devices in_nodes
free_devices-Freed zero it w s o fuel = absurd (omega arith)
free_devices-Freed (suc k) it w nil no_device fuel =
    returns {s = w} (record { devices = λ a. refl; nodes = λ a. refl; rest = refl })
free_devices-Freed (suc k) it w (cons {q} e out s)
      (device {p} {v} {xs} {d} {q = queue} {qs} {rest} at new has_queue is apart o) fuel =
    let (n, points, eq) = entry_at e in
    rw
      (
        Points-not_null points,
        load-ok points,
        Points-not_null points,
        load-ok points,
        ap (λ l. l.value.1) eq,
        load-ok at,
        has_queue,
        ap (λ l. l.next) eq,
      )
      (in_nodes-bind w _ (destroy-Without is) λ u g gone.
        let w1 : Rf = record w { nodes = g; devices = write w.devices v none } in
        let first = (it.current == null) && (it.index == 0) in
        let next : Iterator = record {
          index = if first then it.index else it.index + 1;
          iterable = q;
          current = p;
        } in
        let o' : Owned w1.devices g xs rest =
          Owned-frame o (λ a i. unfold write in ground arith)
            λ a i. ground (arith, gone a, apart a i) in
        rw (free-ok at) (
          Returns-mono (free_devices-Freed k next w1 s o' (omega arith))
            λ u' w' f. after_device w v xs qs rest g w' gone f))

-- What `rfDeInit` ends in.
pub record Ended (w : Rf) (xs : Cells Pair) (all : Cells Ptr) (r : ℕ) (w' : Rf) : Type 0 where
  pub result : r ≡ 0
  pub run : w'.run ≡ false
  pub devices : (a : Ptr) → w'.devices a ≡ (if stores a xs then none else w.devices a)
  pub nodes : (a : Ptr) → w'.nodes a ≡ (if has a all then none else w.nodes a)
  pub entries : (a : Ptr) → w'.entries a ≡ (if has a xs then none else w.entries a)
  pub packets : w'.packets ≡ w.packets
  pub closed : w'.closed ≡ (if sock_open w.sock then w.closed ++ descriptors w.sock else w.closed)

free_all-Freed :
    (fresh : Ptr) (w : Rf) {xs : Cells Pair} {all : Cells Ptr}
    → fresh ≢ null
    → IsMap w.entries w.map xs
    → Owned w.devices w.nodes xs all
    → Returns (λ u w'. Freed w xs all w') (free_all (iterator fresh w.map) w)
unfolding free_all iterator iterator_create
free_all-Freed fresh w got is o = rw (ne→==-false fresh null got) (
    free_devices-Freed (w.map.size + 1)
      (record { index = 0; iterable = w.map.head; current = null }) w is.order o
      (omega (arith, is.counted)))

-- `rfDeInit` with memory for its iterator, on a well-formed map whose values are different live
-- devices with queues of their own: it gives back every device, every node of their queues and every
-- entry, nothing twice and nothing else, and closes the socket if its descriptor is positive. The
-- packets that the queues hold stay allocated.
pub de_init-Ended :
    (fresh : Ptr) (w : Rf) {xs : Cells Pair} {all : Cells Ptr}
    → fresh ≢ null
    → IsMap w.entries w.map xs
    → Owned w.devices w.nodes xs all
    → Returns (Ended w xs all) (de_init fresh w)
unfolding de_init in_entries
de_init-Ended fresh w {xs} got is o =
    let w0 : Rf = record w { run = false } in
    Returns-bind (free_all-Freed fresh w0 got is o) λ u w1 f.
      let kept : w1.entries ≡ w.entries = ap (λ s. s.entries) f.rest in
      in_entries-bind w1 _ (destroy-entries {h = w1.entries} {m = w.map} {xs = xs} (rw kept is))
        λ u' g gone. elim (Bool-cases (sock_open w.sock)) [
          | inl live ↦
              rw (live, close_sock-descriptors (record w1 { entries = g }))
                (returns (record {
                  result = refl;
                  run = ap (λ s. s.run) f.rest;
                  devices = f.devices;
                  nodes = f.nodes;
                  entries = λ a. gone a ∙ rw kept refl;
                  packets = ap (λ s. s.packets) f.rest;
                  closed = rw live (ap (λ s. s.closed ++ descriptors s.sock) f.rest);
                }))
          | inr dead ↦ rw dead (
              returns (record {
                result = refl;
                run = ap (λ s. s.run) f.rest;
                devices = f.devices;
                nodes = f.nodes;
                entries = λ a. gone a ∙ rw kept refl;
                packets = ap (λ s. s.packets) f.rest;
                closed = rw dead (ap (λ s. s.closed) f.rest);
              }))
        ]
