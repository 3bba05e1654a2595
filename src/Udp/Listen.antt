-- ===== src/Udp/Listen.antt =====
-- A round of `udpListener` of udp.c, over `rfEnqueuePacket`.
use rf_gateway.Base.{
  ℕ, ◌≤◌, min, ◌≡◌, ◌≢◌, refl, false, Option, none, some, List, [], ◌∷◌, ◌++◌, arith, ok, pure,
  ◌>>◌, Ptr, null, Points, Points-write, modify-ok, free-ok, write, write-write, length, take,
  length-take, get_or, replicate, length-splice, word32, ne→==-false, ◌∙◌,
}
use rf_gateway.Crypto.{Evp}
use rf_gateway.Crypto.Laws.{CbcBlock}
use rf_gateway.Links.{Cells}
use rf_gateway.HashMap.View.{Pair, IsMap, holds}
use rf_gateway.Rf.{Rf, Device, Packet, i_dst, i_len, i_data, max_packet_len, in_packets}
use rf_gateway.Rf.Air.{frame_of}
use rf_gateway.Rf.Enqueue.{enqueue_packet}
use rf_gateway.Rf.Enqueue.Known.{dev_of, counted_up, owner_of, tx_of, enqueue_packet-known}
use rf_gateway.Rf.Enqueue.Lost.{addressed, enqueue_packet-unknown}
use rf_gateway.Udp.{listen_round, forward, received_packet, blank_packet}

module _ (evp : Evp) (rand : Option ℕ) (stack : List ℕ) (sock : ℕ) (fresh : Ptr) (w : Rf)
    (got : fresh ≢ null) where
  -- A failed receipt leaves the address free again.
  pub listen_round-failed :
      listen_round evp rand stack sock fresh none w
      ≡ ok tt (record w { packets = write w.packets fresh none })
  unfolding listen_round forward in_packets
  listen_round-failed = rw (
    ne→==-false fresh null got,
    free-ok (Points-write w.packets blank_packet got),
    write-write w.packets fresh (some blank_packet) none,
  )

  module _ (bytes : List ℕ) where
    abbrev pub p : Packet
    p = received_packet sock bytes

    abbrev pub filed : Rf
    filed = record w { packets = write w.packets fresh (some p) }

    length-received : length p.bytes ≡ max_packet_len
    length-received =
        length-splice (replicate max_packet_len 0) 0 (take max_packet_len bytes)
          (omega (arith, length-take max_packet_len bytes))
        ∙ refl

    filed_at : Points filed.packets fresh p
    filed_at = Points-write w.packets p got

    -- The round is a call of `rfEnqueuePacket` in a memory with the packet.
    pub listen_round-enqueue :
        listen_round evp rand stack sock fresh (some bytes) w
        ≡ (enqueue_packet evp rand stack fresh >> pure tt) filed
    unfolding listen_round forward in_packets
    listen_round-enqueue =
        rw
          (
            ne→==-false fresh null got,
            modify-ok (Points-write w.packets blank_packet got) (λ q. p),
            write-write w.packets fresh (some blank_packet) (some p),
          )
          refl

    module _ (g : Device) {xs : Cells Pair} (gw : Points w.devices w.gw g)
        (is : IsMap w.entries w.map xs) where
      -- A datagram of at least 13 bytes for a device of the map, not the gateway's own record, that
      -- promises at most 241 bytes of payload, under a cipher that keeps the laws of CBC: one frame
      -- is sent, the device's counter goes up, and the memory of the packet is free again.
      pub listen_round-known :
          (d : Device)
          → Points w.devices (dev_of p xs) d
          → dev_of p xs ≢ w.gw
          → length stack ≡ max_packet_len
          → i_data ≤ length bytes
          → get_or p.bytes i_len 0 ≤ 241
          → (law : CbcBlock evp (owner_of g d).key (owner_of g d).iv)
          → listen_round evp rand stack sock fresh (some bytes) w
            ≡ ok tt (record w {
              devices = write w.devices (dev_of p xs) (some (counted_up d));
              packets = write w.packets fresh none;
              sent = w.sent ++ frame_of law.cipher rand (tx_of g d p stack) ∷ [];
            })
      listen_round-known d dv apart room long fits law =
          let cut : p.len ≡ min max_packet_len (length bytes) = length-take max_packet_len bytes in
          listen_round-enqueue
          ∙ rw
              (
                enqueue_packet-known evp rand stack fresh filed g d p gw filed_at length-received is
                    dv apart room (omega (arith, cut)) (omega (arith, cut)) fits law,
                write-write w.packets fresh (some p) none,
              )
              refl

      -- A datagram for an address that no device has leaves its packet allocated.
      pub listen_round-unknown :
          holds (word32 p.bytes i_dst) xs ≡ false
          → listen_round evp rand stack sock fresh (some bytes) w
            ≡ ok tt (record w {
              packets = write w.packets fresh (some (record p { bytes = addressed g p }));
            })
      listen_round-unknown miss =
          listen_round-enqueue
          ∙ rw
              (
                enqueue_packet-unknown evp rand stack fresh filed g p gw filed_at length-received is
                    miss,
                write-write w.packets fresh (some p) (some (record p { bytes = addressed g p })),
              )
              refl
