-- ===== src/Rf/Enqueue/Known.antt =====
-- `rfEnqueuePacket` for a device of the map.
use rf_gateway.Base.{
  ℕ, ◌+◌, ◌≤◌, ◌<◌, ◌≡◌, ◌≢◌, refl, Bool-cases, inl, inr, Option, none, some, List, [], ◌∷◌, ◌++◌,
  arith, if◌then◌else◌, u8, ok, fault, pure, ◌>>◌, Ptr, Points, Points-not_null, Points-write,
  Points-write_ne, load-ok, modify-ok, free-ok, write, write-write, length, get_or, bytes32, word32,
  span, splice, slice-ok, patch-ok, length-splice, length-span, get_or-splice, get_or-span, sym,
  ◌∙◌,
}
use rf_gateway.Crypto.{Evp}
use rf_gateway.Crypto.Laws.{CbcBlock}
use rf_gateway.Links.{Cells}
use rf_gateway.HashMap.View.{Pair, IsMap, value_of}
use rf_gateway.Rf.{
  Rf, Device, Packet, i_dst, i_src, i_ctr, i_len, i_data, max_packet_len, is_gateway, key_owner,
  transmit, in_devices, in_packets,
}
use rf_gateway.Rf.Air.{frame_of, transmit-frame_of}
use rf_gateway.Rf.Seal.{seal-fault}
use rf_gateway.Rf.Enqueue.{enqueue_packet, send_to}
use rf_gateway.Rf.Enqueue.Lost.{addressed, enqueue_packet-lookup}

-- The packet with the gateway's address and the device's counter.
abbrev pub counted : Device → Device → Packet → List ℕ
counted g d p = splice (addressed g p) i_ctr (d.ctr ∷ [])

-- `txbuf` before the random byte: the packet over the first bytes of the array.
abbrev pub tx_of : Device → Device → Packet → List ℕ → List ℕ
tx_of g d p stack = splice stack 0 (span (counted g d p) 0 p.len)

module _ (g d : Device) (p : Packet) (stack : List ℕ) (whole : length p.bytes ≡ max_packet_len)
    (room : length stack ≡ max_packet_len) (low : i_data ≤ p.len)
    (high : p.len ≤ max_packet_len) where
  length-addressed : length (addressed g p) ≡ max_packet_len
  length-addressed = length-splice p.bytes i_src (bytes32 g.addr) (omega arith) ∙ whole

  length-counted : length (counted g d p) ≡ max_packet_len
  length-counted =
      length-splice (addressed g p) i_ctr (d.ctr ∷ []) (omega (arith, length-addressed))
      ∙ length-addressed

  length-copied : length (span (counted g d p) 0 p.len) ≡ p.len
  length-copied = length-span (counted g d p) 0 p.len (omega (arith, length-counted))

  length-tx_of : length (tx_of g d p stack) ≡ max_packet_len
  length-tx_of =
      length-splice stack 0 (span (counted g d p) 0 p.len) (omega (arith, length-copied)) ∙ room

  len-tx_of : get_or (tx_of g d p stack) i_len 0 ≡ get_or p.bytes i_len 0
  len-tx_of = ground (
    arith,
    get_or-splice stack 0 (span (counted g d p) 0 p.len) i_len (omega (arith, length-copied)),
    length-copied,
    get_or-span (counted g d p) 0 p.len i_len,
    get_or-splice (addressed g p) i_ctr (d.ctr ∷ []) i_len (omega (arith, length-addressed)),
    get_or-splice p.bytes i_src (bytes32 g.addr) i_len (omega arith),
  )

-- The device whose key a frame for `d` is sealed under.
abbrev pub owner_of : Device → Device → Device
owner_of g d = if is_gateway d then g else d

pub key_owner-owner_of :
    (g d : Device) (w : Rf) → Points w.devices w.gw g → key_owner d w ≡ ok (owner_of g d) w
unfolding key_owner in_devices
key_owner-owner_of g d w gw = elim (Bool-cases (is_gateway d)) [
  | inl other ↦ rw (other, load-ok gw)
  | inr own ↦ rw own
]

-- The device that a packet is for.
abbrev pub dev_of : Packet → Cells Pair → Ptr
dev_of p xs = value_of (word32 p.bytes i_dst) xs

-- The device with its next counter.
abbrev pub counted_up : Device → Device
counted_up d = record d { ctr = u8 (d.ctr + 1) }

module _ (evp : Evp) (rand : Option ℕ) (stack : List ℕ) (packet : Ptr) (w : Rf) (g d : Device)
    (p : Packet) {xs : Cells Pair} (gw : Points w.devices w.gw g) (pk : Points w.packets packet p)
    (whole : length p.bytes ≡ max_packet_len) (is : IsMap w.entries w.map xs)
    (dv : Points w.devices (dev_of p xs) d) where
  -- The state in front of the random byte.
  abbrev pub handed_over : Rf
  handed_over = record w {
    devices = write w.devices (dev_of p xs) (some (counted_up d));
    packets = write w.packets packet none;
  }

  -- Up to the random byte.
  enqueue_packet-transmit :
      length stack ≡ max_packet_len
      → i_data ≤ p.len
      → p.len ≤ max_packet_len
      → enqueue_packet evp rand stack packet w
        ≡ (transmit evp rand d (tx_of g d p stack) >> pure 0) handed_over
  unfolding send_to in_devices in_packets
  enqueue_packet-transmit room low high =
      let stamped_packet = record p { bytes = addressed g p } in
      let sent_packet = record p { bytes = counted g d p } in
      let packets' = write w.packets packet (some stamped_packet) in
      let packets'' = write packets' packet (some sent_packet) in
      let held : Points packets' packet stamped_packet =
        Points-write w.packets stamped_packet pk.ne_null in
      let held' : Points packets'' packet sent_packet =
        Points-write packets' sent_packet pk.ne_null in
      let devices' = write w.devices (dev_of p xs) (some (counted_up d)) in
      let w1 : Rf = record w { devices = devices'; packets = packets' } in
      let w2 : Rf = record w1 { packets = packets'' } in
      let full = length-addressed g d p stack whole room low high in
      let full' = length-counted g d p stack whole room low high in
      let copied = length-copied g d p stack whole room low high in
      let same : write packets'' packet none ≡ write w.packets packet none =
        write-write packets' packet (some sent_packet) none
        ∙ write-write w.packets packet (some stamped_packet) none in
      enqueue_packet-lookup evp rand stack packet w g p gw pk whole is
      ∙ rw (
        Points-not_null dv,
        load-ok dv,
        modify-ok dv counted_up,
        load-ok held,
        patch-ok (addressed g p) i_ctr (d.ctr ∷ []) w1 (omega (arith, full)),
        modify-ok held (λ p'. record p' { bytes = counted g d p }),
        slice-ok (counted g d p) 0 p.len w2 (omega (arith, full')),
        patch-ok stack 0 (span (counted g d p) 0 p.len) w2 (omega (arith, copied)),
        free-ok held',
        same,
      )

  -- `rfEnqueuePacket` for a device of the map, whose record is not the gateway's own. The packet
  -- has its header, 256 bytes of data, and at most 241 bytes of payload, and the cipher keeps the
  -- laws of CBC under the key that the frame is for. Then the result is 0, one frame is sent, that
  -- of the packet with the gateway's address and the device's counter in it; the packet is given
  -- back, the counter goes up by one modulo 256, and the rest of the state stays.
  pub enqueue_packet-known :
      dev_of p xs ≢ w.gw
      → length stack ≡ max_packet_len
      → i_data ≤ p.len
      → p.len ≤ max_packet_len
      → get_or p.bytes i_len 0 ≤ 241
      → (law : CbcBlock evp (owner_of g d).key (owner_of g d).iv)
      → enqueue_packet evp rand stack packet w
        ≡ ok 0 (record w {
          devices = write w.devices (dev_of p xs) (some (counted_up d));
          packets = write w.packets packet none;
          sent = w.sent ++ frame_of law.cipher rand (tx_of g d p stack) ∷ [];
        })
  enqueue_packet-known apart room low high fits law =
      let len = len-tx_of g d p stack whole room low high in
      let gw' : Points handed_over.devices w.gw g =
        Points-write_ne (some (counted_up d)) gw (λ e. apart (sym e)) in
      enqueue_packet-transmit room low high
      ∙ rw
          (transmit-frame_of (owner_of g d) law rand (tx_of g d p stack)
            (length-tx_of g d p stack whole room low high) (omega (arith, len)) d handed_over
            (key_owner-owner_of g d handed_over gw'))
          refl

  -- With more than 241 bytes of payload in the header, the checksum is written behind the end of
  -- `txbuf`, whatever the cipher does.
  pub enqueue_packet-fault :
      length stack ≡ max_packet_len
      → i_data ≤ p.len
      → p.len ≤ max_packet_len
      → 241 < get_or p.bytes i_len 0
      → enqueue_packet evp rand stack packet w ≡ fault
  unfolding transmit
  enqueue_packet-fault room low high over =
      let len = len-tx_of g d p stack whole room low high in
      enqueue_packet-transmit room low high
      ∙ rw
          (seal-fault rand (tx_of g d p stack) (length-tx_of g d p stack whole room low high)
            handed_over (omega (arith, len)))
          refl
