-- ===== src/Rf/Enqueue.antt =====
-- `rfEnqueuePacket` and `rfAddDevice` of rf.c.
pub mod Devices
pub mod Known
pub mod Lost
use rf_gateway.Base.{
  ℕ, ◌+◌, Bool, Option, none, some, List, [], ◌∷◌, ◌==◌, if◌then◌else◌, Ptr, null, Cmd, pure, ◌>>=◌,
  ◌>>◌, load, modify, free, patch, slice, u8, bytes32, word32,
}
use rf_gateway.Checksum.{address_of}
use rf_gateway.Crypto.{Evp}
use rf_gateway.HashMap
use rf_gateway.HashMap.{HashMap, SetResult}
use rf_gateway.Rf.{
  Rf, Device, Packet, i_dst, i_src, i_ctr, state, in_entries, in_devices, in_packets, transmit,
}

module _ (evp : Evp) where
  -- The branch for a known device: the packet gets the device's counter, is copied to the stack
  -- and given back, and the copy is sent. `stack` is what `txbuf` holds before.
  unfoldable pub send_to : Option ℕ → (stack : List ℕ) → (packet dev : Ptr) → Cmd Rf ℕ
  unfolding transmit
  send_to rand stack packet dev = do
    d ← in_devices (load dev)
    in_devices (modify dev (λ d. record d { ctr = u8 (d.ctr + 1) }))
    p ← in_packets (load packet)
    counted ← patch p.bytes i_ctr (d.ctr ∷ [])
    in_packets (modify packet (λ p. record p { bytes = counted }))
    copied ← slice counted 0 p.len
    txbuf ← patch stack 0 copied
    in_packets (free packet)
    transmit evp rand d txbuf
    pure 0

  unfoldable pub enqueue_packet : Option ℕ → (stack : List ℕ) → (packet : Ptr) → Cmd Rf ℕ
  unfolding send_to
  enqueue_packet rand stack packet = if packet == null then pure 1 else do
    w ← state
    g ← in_devices (load w.gw)
    p ← in_packets (load packet)
    addressed ← patch p.bytes i_src (bytes32 g.addr)
    in_packets (modify packet (λ p. record p { bytes = addressed }))
    dev ← in_entries (HashMap.get w.map (word32 addressed i_dst))
    if dev == null then pure 1 else send_to rand stack packet dev

-- The result of `hashmap_set` in `rfAddDevice`: a replaced device is given back.
add_result : SetResult → Cmd Rf ℕ
add_result (old, errno, map) = do
  (λ w. pure tt (record w { map = map }))
  if old == null then pure tt else in_devices (free old)
  pure 0

-- `fresh` and `room` are what `hashmap_set` gets from its allocations.
unfoldable pub add_device : (fresh : Ptr) (room : Bool) → (new_dev : Ptr) → Cmd Rf ℕ
unfolding add_result
add_device fresh room new_dev = do
  in_devices (modify new_dev (λ d. record d { addr = address_of d.sn }))
  d ← in_devices (load new_dev)
  w ← state
  r ← in_entries (HashMap.set fresh room w.map d.addr new_dev)
  add_result r
