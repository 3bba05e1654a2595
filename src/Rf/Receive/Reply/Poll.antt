-- ===== src/Rf/Receive/Reply/Poll.antt =====
-- The response of `rfRecvThread` to a poll when packets are queued.
use rf_gateway.Base.{
  ℕ, ◌≤◌, ◌≡◌, ◌≢◌, refl, Bool, true, false, Option, some, none, List, [], ◌∷◌, ◌++◌, arith, ◌==◌,
  ok, Returns, returns, Returns-bind, Ptr, Points, Points-write_ne, load-ok, modify-ok, write,
  length, length-append, get_or, get_or-splice, get_or-span, replicate, span, splice, length-span,
  length-splice, patch-ok, slice-ok, bit_or, word32, ap, ◌∙◌, sym, ne→==-false,
}
use rf_gateway.Crypto.{Evp}
use rf_gateway.Crypto.Laws.{CbcBlock}
use rf_gateway.Links.{Cells}
use rf_gateway.LinkedList
use rf_gateway.LinkedList.{Handle}
use rf_gateway.LinkedList.Valid.{IsList}
use rf_gateway.LinkedList.Back.{pop-snoc}
use rf_gateway.HashMap.View.{Pair, IsMap, value_of}
use rf_gateway.Rf.{
  Rf, Device, Packet, i_src, i_cmd, i_ctr, i_len, i_data, max_packet_len, in_nodes, in_devices,
  in_packets,
}
use rf_gateway.Rf.Parts.{in_nodes-bind}
use rf_gateway.Rf.Air.{frame_of, transmit-frame_of}
use rf_gateway.Rf.Enqueue.Known.{owner_of, key_owner-owner_of}
use rf_gateway.Rf.Receive.{
  datagram, recv_round, answer, poll_answer, pop_answer, unprotect, crc_ok, c_poll,
}
use rf_gateway.Rf.Receive.Round.{filled, recv_round-respond}
use rf_gateway.Rf.Receive.Answers.{head}
use rf_gateway.Rf.Receive.Reply.{respond-answer, opened_room}

-- The bytes of the packet over the header of the response.
abbrev over_header : Device → List ℕ → Packet → List ℕ
over_header g rx p = splice (head g rx (replicate 247 0)) 0 (span p.bytes 0 p.len)

-- The response: the packet with the marked counter of the request.
abbrev pub polled : Device → List ℕ → Packet → List ℕ
polled g rx p = splice (over_header g rx p) i_ctr (bit_or (get_or rx i_ctr 0) 0x80 ∷ [])

-- What `list_pop` and the copy leave.
record Taken (w : Rf) (dev : Ptr) (d : Device) (ys : Cells Ptr) (c : Ptr × Ptr) (tx : List ℕ)
    (r : List ℕ × Bool) (w' : Rf) : Type 0 where
  buffer : r ≡ (tx, true)
  queue : Handle
  left : IsList w'.nodes queue ys
  gone : w'.nodes c.0 ≡ none
  state : w' ≡ record w {
    nodes = w'.nodes;
    devices = write w.devices dev (some (record d { packet_queue = some queue }));
  }

module _ (g d : Device) (dev : Ptr) (rx : List ℕ) (w : Rf) (q : Handle) (ys : Cells Ptr)
    (c : Ptr × Ptr) (p : Packet) (is : IsList w.nodes q (ys ++ c ∷ []))
    (dv : Points w.devices dev d) (pk : Points w.packets c.1 p)
    (whole : length p.bytes ≡ max_packet_len) (low : i_data ≤ p.len)
    (high : p.len ≤ max_packet_len) where
  length-copy : length (span p.bytes 0 p.len) ≡ p.len
  length-copy = length-span p.bytes 0 p.len (omega (arith, whole))

  length-over_header : length (over_header g rx p) ≡ max_packet_len
  length-over_header =
      length-splice (head g rx (replicate 247 0)) 0 (span p.bytes 0 p.len)
        (omega (arith, length-copy))

  length-polled : length (polled g rx p) ≡ max_packet_len
  length-polled =
      length-splice (over_header g rx p) i_ctr (bit_or (get_or rx i_ctr 0) 0x80 ∷ [])
        (omega (arith, length-over_header))
      ∙ length-over_header

  len-polled : get_or (polled g rx p) i_len 0 ≡ get_or p.bytes i_len 0
  len-polled = ground (
    arith,
    get_or-splice (over_header g rx p) i_ctr (bit_or (get_or rx i_ctr 0) 0x80 ∷ []) i_len
        (omega (arith, length-over_header)),
    get_or-splice (head g rx (replicate 247 0)) 0 (span p.bytes 0 p.len) i_len
        (omega (arith, length-copy)),
    length-copy,
    get_or-span p.bytes 0 p.len i_len,
  )

  pop_answer-Taken :
      Returns
        (Taken w dev d ys c (over_header g rx p))
        (pop_answer dev q (head g rx (replicate 247 0)) w)
  unfolding pop_answer in_nodes in_devices in_packets
  pop_answer-Taken =
      in_nodes-bind w _ (pop-snoc {c = c} {ys = ys} is) λ (item, q') h (same, left, gone, outside).
        let w1 : Rf = record w {
          nodes = h;
          devices = write w.devices dev (some (record d { packet_queue = some q' }));
        } in
        rw
          (
            same,
            modify-ok dv (λ d'. record d' { packet_queue = some q' }),
            load-ok pk,
            slice-ok p.bytes 0 p.len w1 (omega (arith, whole)),
            patch-ok (head g rx (replicate 247 0)) 0 (span p.bytes 0 p.len) w1
                (omega (arith, length-copy)),
          )
          (returns (record { buffer = refl; queue = q'; left = left; gone = gone; state = refl }))

  answer-Taken :
      d.packet_queue ≡ some q
      → Returns
          (Taken w dev d ys c (over_header g rx p))
          (answer c_poll dev d (head g rx (replicate 247 0)) w)
  unfolding answer poll_answer LinkedList.empty
  answer-Taken has =
      let some_queued : (q.length == 0) ≡ false =
        ne→==-false q.length 0 (omega (arith, is.counted, length-append ys (c ∷ []))) in
      simp (has, some_queued) pop_answer-Taken

-- What a round with such a poll ends in.
pub record Polled (w : Rf) (dev : Ptr) (d : Device) (ys : Cells Ptr) (c : Ptr × Ptr)
    (rx frame : List ℕ) (r : List ℕ) (w' : Rf) : Type 0 where
  pub buffer : r ≡ rx
  pub queue : Handle
  pub left : IsList w'.nodes queue ys
  pub gone : w'.nodes c.0 ≡ none
  pub devices : w'.devices ≡ write w.devices dev (some (record d { packet_queue = some queue }))
  pub packets : w'.packets ≡ w.packets
  pub sent : w'.sent ≡ w.sent ++ frame ∷ []

module _ (evp : Evp) (rand : Option ℕ) (rxbuf : List ℕ) (w : Rf) (g : Device) {xs : Cells Pair}
    (gw : Points w.devices w.gw g) (room : length rxbuf ≡ max_packet_len)
    (is : IsMap w.entries w.map xs) (b : ℕ) (bytes : List ℕ) (d : Device) (opened : List ℕ)
    (dv : Points w.devices (value_of (word32 (filled rxbuf (b ∷ bytes)) i_src) xs) d)
    (decrypted : unprotect evp d (filled rxbuf (b ∷ bytes)) w ≡ ok opened w)
    (good : crc_ok opened w ≡ ok true w) where
  abbrev dev : Ptr
  dev = value_of (word32 (filled rxbuf (b ∷ bytes)) i_src) xs

  -- A poll of a known device, not the gateway's own record, with a right checksum, when packets are
  -- queued: the packet that was queued last is taken from the queue and sent, with the request's
  -- counter marked, under the key for the device. The packet has its header, at most 256 bytes and
  -- at most 241 bytes of payload, and the cipher keeps the laws of CBC. The node of the queue is
  -- given back, the packet itself stays allocated.
  pub recv_round-Polled :
      (q : Handle) (ys : Cells Ptr) (c : Ptr × Ptr) (p : Packet)
      → get_or opened i_cmd 0 ≡ c_poll
      → d.packet_queue ≡ some q
      → IsList w.nodes q (ys ++ c ∷ [])
      → Points w.packets c.1 p
      → length p.bytes ≡ max_packet_len
      → i_data ≤ p.len
      → p.len ≤ max_packet_len
      → get_or p.bytes i_len 0 ≤ 241
      → dev ≢ w.gw
      → (law : CbcBlock evp (owner_of g d).key (owner_of g d).iv)
      → Returns
          (Polled w dev d ys c opened (frame_of law.cipher rand (polled g opened p)))
          (recv_round evp rand (datagram (b ∷ bytes)) rxbuf w)
  recv_round-Polled q ys c p polls has queued pk whole low high fits apart law =
      let full = opened_room evp rand rxbuf w g gw room is b bytes d opened dv decrypted good in
      let over = length-over_header g d dev opened w q ys c p queued dv pk whole low high in
      let len = len-polled g d dev opened w q ys c p queued dv pk whole low high in
      rw
        (
          recv_round-respond evp rand rxbuf w g gw room is b bytes d opened dv decrypted good,
          respond-answer evp rand g d dev opened w gw full,
          polls,
        )
        (Returns-bind
          {P = λ u w'.
            Polled w dev d ys c opened (frame_of law.cipher rand (polled g opened p)) opened w'}
          (Returns-bind (answer-Taken g d dev opened w q ys c p queued dv pk whole low high has)
            λ r w' t.
              let gw' : Points w'.devices w'.gw g =
                rw (ap (λ s. s.devices) t.state, ap (λ s. s.gw) t.state)
                  (Points-write_ne (some (record d { packet_queue = some t.queue })) gw
                    (λ e. apart (sym e))) in
              rw
                (
                  t.buffer,
                  patch-ok (over_header g opened p) i_ctr (bit_or (get_or opened i_ctr 0) 0x80 ∷ [])
                      w' (omega (arith, over)),
                  transmit-frame_of (owner_of g d) law rand (polled g opened p)
                      (length-polled g d dev opened w q ys c p queued dv pk whole low high)
                      (omega (arith, len)) d w' (key_owner-owner_of g d w' gw'),
                )
                (returns (record {
                  buffer = refl;
                  queue = t.queue;
                  left = t.left;
                  gone = t.gone;
                  devices = ap (λ s. s.devices) t.state;
                  packets = ap (λ s. s.packets) t.state;
                  sent =
                      ap (λ s. s.sent ++ frame_of law.cipher rand (polled g opened p) ∷ []) t.state;
                })))
          λ u w' done. returns done)
