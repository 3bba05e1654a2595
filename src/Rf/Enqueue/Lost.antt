-- ===== src/Rf/Enqueue/Lost.antt =====
-- `rfEnqueuePacket` without a device to send to.
use rf_gateway.Base.{
  ℕ, ◌≡◌, refl, Bool-cases, inl, inr, false, Option, some, List, arith, ◌==◌, if◌then◌else◌, ok,
  Ptr, null, Points, Points-not_null, load-ok, modify-ok, write, length, bytes32, word32, splice,
  patch-ok, get_or-splice, ◌∙◌,
}
use rf_gateway.Crypto.{Evp}
use rf_gateway.Links.{Cells}
use rf_gateway.HashMap.View.{Pair, IsMap, value_of, holds, value_of-null}
use rf_gateway.HashMap.Lookup.{get-value_of}
use rf_gateway.Rf.{
  Rf, Device, Packet, i_dst, i_src, max_packet_len, in_devices, in_packets, in_entries,
}
use rf_gateway.Rf.Enqueue.{enqueue_packet, send_to}

-- The packet with the gateway's address as its source.
abbrev pub addressed : Device → Packet → List ℕ
addressed g p = splice p.bytes i_src (bytes32 g.addr)

module _ (evp : Evp) (rand : Option ℕ) (stack : List ℕ) (packet : Ptr) (w : Rf) (g : Device)
    (p : Packet) {xs : Cells Pair} (gw : Points w.devices w.gw g) (pk : Points w.packets packet p)
    (whole : length p.bytes ≡ max_packet_len) (is : IsMap w.entries w.map xs) where
  abbrev dev : Ptr
  dev = value_of (word32 p.bytes i_dst) xs

  same_dst : word32 (addressed g p) i_dst ≡ word32 p.bytes i_dst
  same_dst =
      let byte = λ (i : ℕ). get_or-splice p.bytes i_src (bytes32 g.addr) i (omega arith) in
      rw (byte 0, byte 1, byte 2, byte 3) refl

  -- The state in front of the lookup's result.
  abbrev pub stamped : Rf
  stamped = record w {
    packets = write w.packets packet (some (record p { bytes = addressed g p }));
  }

  -- Up to the lookup.
  pub enqueue_packet-lookup :
      enqueue_packet evp rand stack packet w
      ≡ (if dev == null then ok 1 stamped else send_to evp rand stack packet dev stamped)
  unfolding enqueue_packet in_devices in_packets in_entries
  enqueue_packet-lookup =
      rw
        (
          Points-not_null pk,
          load-ok gw,
          load-ok pk,
          patch-ok p.bytes i_src (bytes32 g.addr) w (omega arith),
          modify-ok pk (λ p'. record p' { bytes = addressed g p }),
          same_dst,
          get-value_of is (word32 p.bytes i_dst),
        )
        (elim (Bool-cases (dev == null)) [ inl e ↦ rw e refl | inr e ↦ rw e refl ])

  -- A packet for an address that no device has is refused: the result is 1, nothing is sent, and
  -- no counter moves; the packet, with the gateway's address in it, stays allocated.
  pub enqueue_packet-unknown :
      holds (word32 p.bytes i_dst) xs ≡ false
      → enqueue_packet evp rand stack packet w ≡ ok 1 stamped
  enqueue_packet-unknown miss =
      enqueue_packet-lookup ∙ rw (value_of-null (word32 p.bytes i_dst) xs miss) refl
