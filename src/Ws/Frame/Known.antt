-- ===== src/Ws/Frame/Known.antt =====
-- A data frame of a browser that carries a packet for a device of the map, over `rfEnqueuePacket`.
use rf_gateway.Base.{
  ℕ, ◌+◌, ◌≤◌, ◌<◌, ◌≡◌, ◌≢◌, refl, ◌∙◌, true, Option, none, some, List, [], ◌∷◌, ◌++◌, arith, map,
  ok, length, get_or, bit_and, Returns, returns, null, Points, Points-write, write, write-write,
  modify-ok, replicate, splice, length-splice, ne→==-false, le→leb, patch-ok,
}
use rf_gateway.Crypto.{Evp}
use rf_gateway.Crypto.Laws.{CbcBlock}
use rf_gateway.Links.{Cells}
use rf_gateway.HashMap.View.{Pair, IsMap}
use rf_gateway.Rf.{Rf, Device, Packet, i_len, i_data, max_packet_len, in_packets}
use rf_gateway.Rf.Air.{frame_of}
use rf_gateway.Rf.Enqueue.Known.{dev_of, counted_up, owner_of, tx_of, enqueue_packet-known}
use rf_gateway.Udp.{blank_packet}
use rf_gateway.Ws.{Client, ws_buffer_size, in_rf}
use rf_gateway.Ws.Frame.{Arrival, accepted, hand_over, take_base, packet_of, frame_round}
use rf_gateway.Ws.Frame.Mask.{browser_frame, frame_head, masked_from, joined, Arrives}
use rf_gateway.Ws.Frame.Carried.{left_over, length-left_over, frame_round-take_base}
use rf_gateway.Ws.Frame.Handled.{server_frame, answered, reply-server_frame}

-- The packet that the decoded bytes make.
abbrev pub packed : (sockfd : ℕ) → (base : List ℕ) → Packet
packed sockfd base = packet_of sockfd (splice (replicate max_packet_len 0) 0 base) (length base)

-- The gateway after the packet is sent to its device.
abbrev pub sent_to :
    {evp : Evp} {key iv : List ℕ}
    → CbcBlock evp key iv
    → Arrival
    → Rf
    → Device
    → Device
    → Packet
    → Cells Pair
    → Rf
sent_to law a w g d p xs = record w {
  devices = write w.devices (dev_of p xs) (some (counted_up d));
  packets = write w.packets a.fresh none;
  sent = w.sent ++ frame_of law.cipher a.rand (tx_of g d p a.stack) ∷ [];
}

module _ (evp : Evp) (a : Arrival) (sockfd : ℕ) (base : List ℕ) (w : Rf) (g d : Device)
    {xs : Cells Pair} (gw : Points w.devices w.gw g) (is : IsMap w.entries w.map xs)
    (dv : Points w.devices (dev_of (packed sockfd base) xs) d)
    (apart : dev_of (packed sockfd base) xs ≢ w.gw) (room : length a.stack ≡ max_packet_len)
    (low : i_data ≤ length base) (high : length base ≤ max_packet_len)
    (pay : get_or (packed sockfd base).bytes i_len 0 ≤ 241)
    (law : CbcBlock evp (owner_of g d).key (owner_of g d).iv) (got : a.fresh ≢ null) where
  abbrev p : Packet
  p = packed sockfd base

  length-packed : length p.bytes ≡ max_packet_len
  length-packed = length-splice (replicate max_packet_len 0) 0 base (omega arith) ∙ refl

  hand_over-known :
      (c : Client)
      → c.rf ≡ w
      → length accepted + 2 ≤ length c.buffer
      → hand_over evp a sockfd base c
        ≡ ok tt (record {
          rf = sent_to law a w g d p xs;
          buffer = answered accepted c.buffer;
          written = c.written ++ server_frame accepted ∷ [];
          closed = c.closed;
        })
  unfolding hand_over in_rf in_packets
  hand_over-known c e wide =
      let w1 : Rf = record w { packets = write w.packets a.fresh (some p) } in
      rw
        (
          ne→==-false a.fresh null got,
          e,
          patch-ok (replicate max_packet_len 0) 0 base
              (record c { rf = record w { packets = write w.packets a.fresh (some blank_packet) } })
              (omega arith),
          modify-ok (Points-write w.packets blank_packet got) (λ q. p),
          write-write w.packets a.fresh (some blank_packet) (some p),
          enqueue_packet-known evp a.rand a.stack a.fresh w1 g d p gw (Points-write w.packets p got)
              length-packed is dv apart room low high pay law,
          write-write w.packets a.fresh (some p) none,
        )
        (reply-server_frame accepted (record c { rf = sent_to law a w g d p xs }) (omega arith)
          wide)

  take_base-known :
      (text : List ℕ) (decoded : Option (List ℕ)) (c : Client)
      → decoded ≡ some base
      → length base ≤ length text
      → c.rf ≡ w
      → length accepted + 2 ≤ length c.buffer
      → take_base evp a sockfd text decoded c
        ≡ ok tt (record {
          rf = sent_to law a w g d p xs;
          buffer = answered accepted c.buffer;
          written = c.written ++ server_frame accepted ∷ [];
          closed = c.closed;
        })
  unfolding take_base
  take_base-known text decoded c is_base less e wide =
      rw (is_base, le→leb _ _ less) (hand_over-known c e wide)

  -- A frame of a browser that decodes to a packet for a known device.
  module _ (decode : List ℕ → Option (List ℕ)) (first : ℕ) (mask text x : List ℕ)
      (chunks : List (List ℕ)) (c : Client) (here : c.rf ≡ w) (four : length mask ≡ 4)
      (arrived : a.first ≡ some (frame_head first text ++ x)) (chunked : a.chunks ≡ map some chunks)
      (cut : x ++ joined chunks ≡ mask ++ masked_from mask 0 text)
      (parts : Arrives ((frame_head first text ++ x) ∷ chunks))
      (short : length text < 126 → chunks ≡ [])
      (fits : length (browser_frame first mask text) ≤ length c.buffer)
      (wide : length accepted + 2 ≤ length c.buffer)
      (small : length c.buffer ≤ ws_buffer_size) where
    -- A round of the loop meets a masked frame of any of the three length forms, neither a close nor a
    -- ping, cut behind its head into the parts that arrive, or in one part if its text has less than
    -- 126 bytes. The buffer has at most 262144 bytes, and the frame and the response fit in it. The
    -- text decodes to no more bytes than it has, a packet of 13 to 256 bytes with at most 241 bytes of
    -- payload for a device of the well-formed map, not the gateway's own record. The cipher keeps the
    -- laws of CBC, and there is memory. Then one frame is sent on the radio, the counter counts up, the
    -- memory of the packet is free again, the client gets the OK response, and the loop goes on.
    pub frame_round-known :
        bit_and first 0x0f ≢ 0x08
        → bit_and first 0x0f ≢ 0x09
        → a.data_room ≡ true
        → a.base_room ≡ true
        → decode text ≡ some base
        → length base ≤ length text
        → Returns
            (λ goes_on c'.
              (goes_on ≡ true)
              × (c'.rf ≡ sent_to law a w g d p xs)
              × (c'.written ≡ c.written ++ server_frame accepted ∷ []))
            (frame_round evp decode sockfd a c)
    frame_round-known not_close not_ping data_room base_room decoded less =
        let whole = browser_frame first mask text ++ left_over first text x chunks c in
        let carries =
          frame_round-take_base evp decode sockfd a first mask text x chunks c four arrived chunked
            cut parts short fits small not_close not_ping data_room base_room (omega arith) in
        let ends =
          take_base-known text (decode text) (record c { buffer = whole }) decoded less here
            (omega (arith, length-left_over first mask text x chunks c four cut fits)) in
        rw (carries, ends) (returns (refl, refl, refl))
