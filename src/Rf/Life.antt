-- ===== src/Rf/Life.antt =====
-- `rfInit`, `rfOpen`, `rfDeInit` and `rfSendPacket` of rf.c.
pub mod Open
pub mod Free
pub mod Start
use rf_gateway.Base.{
  ℕ, zero, suc, ◌+◌, ◌<◌, ◌≡◌, refl, Bool, true, false, not, Option, none, some, List, [], ◌∷◌,
  ◌++◌, ltb, ◌==◌, if◌then◌else◌, Ptr, null, Cmd, ok, fault, out_of_fuel, pure, ◌>>=◌, ◌>>◌, load,
  modify, free, patch, slice, bytes32, get_or,
}
use rf_gateway.Checksum.{address_of}
use rf_gateway.Crypto.{Evp}
use rf_gateway.Iterator.{Iterator}
use rf_gateway.HashMap
use rf_gateway.HashMap.{HashMap}
use rf_gateway.HashMap.Bulk
use rf_gateway.HashMap.Iterate
use rf_gateway.LinkedList
use rf_gateway.LinkedList.{Handle}
use rf_gateway.Rf.{
  Rf, Device, Packet, i_rnd, state, send, seal, put_coded, is_secret, i_ctr, in_entries, in_nodes,
  in_devices, in_packets,
}

-- What `hashmap_create` gave. A null pointer is `blank`: a lookup in it faults too.
init_with : Option HashMap → Cmd Rf ℕ
init_with none = do (λ w. pure tt (record w { map = HashMap.Bulk.blank })); pure 1
init_with (some m) = do (λ w. pure tt (record w { map = m })); pure 0

unfoldable pub init : (fresh : Ptr) (room : Bool) → Cmd Rf ℕ
unfolding init_with
init fresh room = do
  (λ w. pure tt (record w { sock = none }))
  made ← in_entries (HashMap.Bulk.create fresh room)
  init_with made

-- What the kernel answers in `rfOpen`: the descriptor, whether the interface is found, its flags,
-- `none` where they cannot be read and otherwise whether it is up, and whether the link address is
-- accepted, the flags are accepted, and the socket is bound.
pub record Kernel : Type 0 where
  pub fd : Option ℕ
  pub has_index : Bool
  pub is_up : Option Bool
  pub takes_addr : List ℕ → Bool
  pub takes_flags : Bool
  pub binds : Bool

-- `close(rf.sock)`; a negative descriptor is refused by the kernel.
unfoldable pub close_sock : Cmd Rf (Unit {0})
close_sock w = elim w.sock [
  | none ↦ ok tt w
  | some fd ↦ ok tt (record w { closed = w.closed ++ fd ∷ [] })
]

-- The end of `rfOpen`, from the call of `bind` on.
bind_sock : Kernel → (gw : Ptr) → Cmd Rf ℕ
bind_sock sys gw =
    if not sys.binds then pure 6 else do (λ w. pure tt (record w { gw = gw; run = true })); pure 0

-- The branch for an interface that is down: its link address is the hash, then the address that the
-- configuration gave, then 0x00 and 0xf0.
bring_up : Kernel → (gw : Ptr) → Cmd Rf ℕ
unfolding close_sock bind_sock
bring_up sys gw = do
  g ← in_devices (load gw)
  in_devices (modify gw (λ d. record d { addr = address_of d.sn }))
  if not (sys.takes_addr (bytes32 (address_of g.sn) ++ (bytes32 g.addr ++ 0x00 ∷ 0xf0 ∷ [])))
      then (do close_sock; pure 4)
      else if not sys.takes_flags
      then (do close_sock; pure 5)
      else bind_sock sys gw

with_flags : Kernel → (gw : Ptr) → Option Bool → Cmd Rf ℕ
unfolding bring_up
with_flags sys gw none = do close_sock; pure 2
with_flags sys gw (some true) = do
  in_devices (modify gw (λ d. record d { addr = address_of d.sn }))
  bind_sock sys gw
with_flags sys gw (some false) = bring_up sys gw

unfoldable pub open_radio : Kernel → (gw : Ptr) → Cmd Rf ℕ
unfolding with_flags
open_radio sys gw = do
  (λ w. pure tt (record w { sock = sys.fd }))
  if not sys.has_index then pure 1 else with_flags sys gw sys.is_up

-- `list_destroy(dev->packetQueue)`
destroy_queue : Option Handle → Cmd Rf (Unit {0})
destroy_queue none = λ _. fault
destroy_queue (some q) = in_nodes (LinkedList.destroy q)

-- The loop of `rfDeInit` over the devices.
free_devices : ℕ → Iterator → Cmd Rf (Unit {0})
unfolding destroy_queue
free_devices zero it = λ _. out_of_fuel
free_devices (suc k) it = do
  (entry, it') ← in_entries (HashMap.Iterate.next_entry it)
  if entry == null then pure tt else do
    e ← in_entries (load entry)
    d ← in_devices (load e.value)
    destroy_queue d.packet_queue
    in_devices (free e.value)
    free_devices k it'

-- An iterator for which there is no memory is used all the same.
free_all : Option Iterator → Cmd Rf (Unit {0})
unfolding free_devices
free_all none = λ _. fault
free_all (some it) = do w ← state; free_devices (w.map.size + 1) it

-- `if (rf.sock > 0) close(rf.sock)`
abbrev pub sock_open : Option ℕ → Bool
sock_open none = false
sock_open (some fd) = ltb 0 fd

unfoldable pub de_init : (fresh : Ptr) → Cmd Rf ℕ
unfolding free_all
de_init fresh = do
  (λ w. pure tt (record w { run = false }))
  w ← state
  free_all (HashMap.Iterate.iterator fresh w.map)
  in_entries (HashMap.Bulk.destroy w.map)
  if sock_open w.sock then close_sock else pure tt
  pure 0
