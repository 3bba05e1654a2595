-- ===== src/Ws/Frame/Overrun.antt =====
-- Frames of a browser whose text is no text of base64, or stands for more bytes than a packet has.
use rf_gateway.Base.{
  ℕ, ◌≤◌, ◌<◌, ◌≡◌, ◌≢◌, refl, Bool-cases, inl, inr, true, Option, none, some, List, [], ◌∷◌, ◌++◌,
  arith, leb, map, fault, length, replicate, bit_and, null, ne→==-false, patch-fault,
}
use rf_gateway.Crypto.{Evp}
use rf_gateway.Rf.{max_packet_len, in_packets}
use rf_gateway.Ws.{Client, ws_buffer_size, in_rf}
use rf_gateway.Ws.Frame.{Arrival, hand_over, take_base, frame_round}
use rf_gateway.Ws.Frame.Mask.{browser_frame, frame_head, masked_from, joined, Arrives}
use rf_gateway.Ws.Frame.Carried.{left_over, frame_round-take_base}

module _ (evp : Evp) (a : Arrival) (sockfd : ℕ) (got : a.fresh ≢ null) where
  hand_over-fault :
      (base : List ℕ) (c : Client)
      → max_packet_len < length base
      → hand_over evp a sockfd base c ≡ fault
  unfolding hand_over in_rf in_packets
  hand_over-fault base c over =
      rw
        (
          ne→==-false a.fresh null got,
          patch-fault (replicate max_packet_len 0) 0 base _ (omega arith),
        )
        refl

  take_base-fault :
      (text : List ℕ) (decoded : Option (List ℕ)) (c : Client)
      → ((base : List ℕ) → decoded ≡ some base → max_packet_len < length base)
      → take_base evp a sockfd text decoded c ≡ fault
  unfolding take_base
  take_base-fault text none c over = refl
  take_base-fault text (some base) c over = elim (Bool-cases (leb (length base) (length text))) [
    | inl fits ↦ rw fits (hand_over-fault base c (over base refl))
    | inr wide ↦ rw wide refl
  ]

  module _ (decode : List ℕ → Option (List ℕ)) (first : ℕ) (mask text x : List ℕ)
      (chunks : List (List ℕ)) (c : Client) (four : length mask ≡ 4)
      (arrived : a.first ≡ some (frame_head first text ++ x)) (chunked : a.chunks ≡ map some chunks)
      (cut : x ++ joined chunks ≡ mask ++ masked_from mask 0 text)
      (parts : Arrives ((frame_head first text ++ x) ∷ chunks))
      (short : length text < 126 → chunks ≡ [])
      (fits : length (browser_frame first mask text) ≤ length c.buffer)
      (small : length c.buffer ≤ ws_buffer_size) where
    -- A masked frame of any of the three length forms with a text that is not empty, neither a close
    -- nor a ping, cut behind its head into the parts that arrive, or in one part if its text has less
    -- than 126 bytes, in a buffer of at most 262144 bytes that it fits in, with memory: if the text
    -- does not decode, or decodes to more than 256 bytes, the thread leaves the bounds of a block.
    pub frame_round-fault :
        bit_and first 0x0f ≢ 0x08
        → bit_and first 0x0f ≢ 0x09
        → a.data_room ≡ true
        → a.base_room ≡ true
        → 0 < length text
        → ((base : List ℕ) → decode text ≡ some base → max_packet_len < length base)
        → frame_round evp decode sockfd a c ≡ fault
    frame_round-fault not_close not_ping data_room base_room some_text over =
        rw
          (
            frame_round-take_base evp decode sockfd a first mask text x chunks c four arrived
                chunked cut parts short fits small not_close not_ping data_room base_room some_text,
            take_base-fault text (decode text)
                (record c {
                  buffer = browser_frame first mask text ++ left_over first text x chunks c;
                })
                over,
          )
          refl
