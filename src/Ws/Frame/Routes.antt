-- ===== src/Ws/Frame/Routes.antt =====
-- The two ways of a packet into the gateway: a frame of a browser and a datagram, over
-- `rfEnqueuePacket`.
use rf_gateway.Base.{
  ℕ, ◌≤◌, ◌<◌, ◌≡◌, ◌≢◌, refl, ◌∙◌, true, Option, some, List, [], ◌∷◌, ◌++◌, arith, le→leb, map,
  length, take_of_length-le, replicate, bit_and, Run, ok, fault, out_of_fuel, and_then, null,
  ne→==-false, Points-write, modify-ok, patch-ok, splice, write, write-write, ◌>>◌, pure,
}
use rf_gateway.Crypto.{Evp}
use rf_gateway.Rf.{Rf, max_packet_len, in_packets}
use rf_gateway.Rf.Enqueue.{enqueue_packet}
use rf_gateway.Udp.{blank_packet, received_packet, listen_round}
use rf_gateway.Udp.Listen.{listen_round-enqueue}
use rf_gateway.Ws.{Client, ws_buffer_size, in_rf, in_rf_result}
use rf_gateway.Ws.Frame.{Arrival, accepted, packet_of, reply, hand_over, take_base, frame_round}
use rf_gateway.Ws.Frame.Mask.{browser_frame, frame_head, masked_from, joined, Arrives}
use rf_gateway.Ws.Frame.Carried.{left_over, frame_round-take_base}

-- A result that is dropped makes no difference to what follows.
dropped :
    {A B : Type 0} (c : Client) (r : Run Rf A) (f : Client → Run Client B)
    → and_then (in_rf_result c r) (λ _. f)
      ≡ and_then (in_rf_result c (and_then r (λ _. pure tt))) (λ _. f)
unfolding in_rf_result
dropped c (ok x w) f = refl
dropped c fault f = refl
dropped c out_of_fuel f = refl

module _ (evp : Evp) (a : Arrival) (sockfd : ℕ) (base : List ℕ) (got : a.fresh ≢ null)
    (high : length base ≤ max_packet_len) where
  abbrev carried : List ℕ
  carried = splice (replicate max_packet_len 0) 0 base

  -- The state that `rfEnqueuePacket` is called in.
  abbrev filed : Rf → Rf
  filed w = record w { packets = write w.packets a.fresh (some (received_packet sockfd base)) }

  hand_over-enqueue :
      (c : Client)
      → hand_over evp a sockfd base c
        ≡ and_then
            (in_rf_result c (enqueue_packet evp a.rand a.stack a.fresh (filed c.rf)))
            (λ _. reply accepted)
  unfolding hand_over in_rf in_packets
  hand_over-enqueue c =
      let w = c.rf in
      rw
        (
          ne→==-false a.fresh null got,
          take_of_length-le max_packet_len base high,
          patch-ok (replicate max_packet_len 0) 0 base
              (record c { rf = record w { packets = write w.packets a.fresh (some blank_packet) } })
              (omega arith),
          modify-ok (Points-write w.packets blank_packet got)
              (λ q. packet_of sockfd carried (length base)),
          write-write w.packets a.fresh (some blank_packet)
              (some (packet_of sockfd carried (length base))),
        )
        refl

  take_base-listen_round :
      (text : List ℕ) (decoded : Option (List ℕ)) (c : Client)
      → decoded ≡ some base
      → length base ≤ length text
      → take_base evp a sockfd text decoded c
        ≡ (in_rf (listen_round evp a.rand a.stack sockfd a.fresh (some base)) >> reply accepted) c
  unfolding take_base in_rf
  take_base-listen_round text decoded c is_base less =
      let dropping =
        dropped c (enqueue_packet evp a.rand a.stack a.fresh (filed c.rf)) (reply accepted) in
      let same : hand_over evp a sockfd base c
          ≡ (in_rf (listen_round evp a.rand a.stack sockfd a.fresh (some base)) >> reply accepted)
              c =
        hand_over-enqueue c
        ∙ dropping
        ∙ rw (listen_round-enqueue evp a.rand a.stack sockfd a.fresh c.rf got base) refl in
      rw (is_base, le→leb _ _ less) same

  module _ (decode : List ℕ → Option (List ℕ)) (first : ℕ) (mask text x : List ℕ)
      (chunks : List (List ℕ)) (c : Client) (four : length mask ≡ 4)
      (arrived : a.first ≡ some (frame_head first text ++ x)) (chunked : a.chunks ≡ map some chunks)
      (cut : x ++ joined chunks ≡ mask ++ masked_from mask 0 text)
      (parts : Arrives ((frame_head first text ++ x) ∷ chunks))
      (short : length text < 126 → chunks ≡ [])
      (fits : length (browser_frame first mask text) ≤ length c.buffer)
      (small : length c.buffer ≤ ws_buffer_size) where
    -- A masked frame of any of the three length forms with a text that is not empty, neither a close
    -- nor a ping, cut behind its head into the parts that arrive, or in one part if its text has less
    -- than 126 bytes, in a buffer of at most 262144 bytes that it fits in, with memory: if the text
    -- decodes to at most 256 bytes, and to no more than it has, the round of `wsRecvThread` does to
    -- the gateway what a round of `udpListener` does that receives these bytes on a socket of the same
    -- number, faults included, and the client gets the OK response behind it whatever became of the
    -- packet.
    pub frame_round-listen_round :
        bit_and first 0x0f ≢ 0x08
        → bit_and first 0x0f ≢ 0x09
        → a.data_room ≡ true
        → a.base_room ≡ true
        → 0 < length text
        → decode text ≡ some base
        → length base ≤ length text
        → frame_round evp decode sockfd a c
          ≡ (in_rf (listen_round evp a.rand a.stack sockfd a.fresh (some base))
                >> reply accepted
                >> pure true)
              (record c {
                buffer = browser_frame first mask text ++ left_over first text x chunks c;
              })
    frame_round-listen_round not_close not_ping data_room base_room some_text decoded less =
        let c' : Client = record c {
          buffer = browser_frame first mask text ++ left_over first text x chunks c;
        } in
        rw
          (
            frame_round-take_base evp decode sockfd a first mask text x chunks c four arrived
                chunked cut parts short fits small not_close not_ping data_room base_room some_text,
            take_base-listen_round text (decode text) c' decoded less,
          )
          refl
