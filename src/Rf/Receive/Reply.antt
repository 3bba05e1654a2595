-- ===== src/Rf/Receive/Reply.antt =====
-- The responses of `rfRecvThread`.
pub mod Poll
use rf_gateway.Base.{
  ◌>>=◌, Cmd, Bool, not, ℕ, ◌+◌, ◌≤◌, ◌≡◌, refl, true, false, Bool-cases, Option-cases, inl, inr,
  Option, some, List, [], ◌∷◌, ◌++◌, arith, if◌then◌else◌, ok, pure, Ptr, Points, length, get_or,
  get_or_ext, get_or-span, length-span, leb, leb→le, replicate, bytes32, word32, span, splice,
  length-splice, patch, slice-ok, bit_or, ◌∙◌, sym, zero, suc,
}
use rf_gateway.Crypto.{Evp, decrypt_packet}
use rf_gateway.Crypto.Laws.{CbcBlock}
use rf_gateway.Links.{Cells}
use rf_gateway.LinkedList
use rf_gateway.LinkedList.{Handle}
use rf_gateway.HashMap.View.{Pair, IsMap, value_of}
use rf_gateway.Rf.{
  transmit, Rf, Device, i_src, i_cmd, i_ctrl, i_ctr, is_secret, max_packet_len, put_coded,
}
use rf_gateway.Rf.Air.{frame_of, transmit-frame_of}
use rf_gateway.Rf.Enqueue.Known.{owner_of, key_owner-owner_of}
use rf_gateway.Rf.Receive.{
  datagram, recv_round, respond, answer, fill_answer, poll_answer, unprotect, crc_ok, c_discover,
  c_read_reg, c_write_reg, c_notify, c_poll, c_discover_resp, c_rw_resp, c_ack,
}
use rf_gateway.Rf.Receive.Round.{blank, answered, filled, length-filled, recv_round-respond}
use rf_gateway.Rf.Receive.Answers.{
  length-patch, length-unprotect, source-bytes, addressee, marked, answer-silent, answer-reply,
  count-reply, len-small, head, reply, Answers, discover, read_reg, write_reg, notify, poll,
}

module _ (evp : Evp) (rand : Option ℕ) (g d : Device) (dev : Ptr) (opened : List ℕ) (w : Rf)
    (gw : Points w.devices w.gw g) (room : length opened ≡ max_packet_len) where
  -- What becomes of the result of the switch.
  abbrev after_switch : List ℕ × Bool → Cmd Rf (Unit {0})
  after_switch r =
      if not r.1
      then pure tt
      else patch r.0 i_ctr (bit_or (get_or opened i_ctr 0) 0x80 ∷ []) >>= λ tx.
          transmit evp rand d tx

  respond-answer :
      respond evp rand dev d opened (blank g) w
      ≡ (answer (get_or opened i_cmd 0) dev d (head g opened (replicate 247 0)) >>= after_switch) w
  unfolding respond
  respond-answer =
      rw
        (
          slice-ok opened i_src 4 w (omega (arith, room)),
          source-bytes opened room,
          addressee g (get_or opened 4 0) (get_or opened 5 0) (get_or opened 6 0)
              (get_or opened 7 0) w,
          marked g opened w,
        )
        refl

  -- The other commands get no response.
  respond-silent :
      answered (get_or opened i_cmd 0) ≡ false → respond evp rand dev d opened (blank g) w ≡ ok tt w
  respond-silent silent =
      respond-answer
      ∙ rw (answer-silent (get_or opened i_cmd 0) dev d (head g opened (replicate 247 0)) w silent)
          refl

  -- The five others get theirs.
  respond-reply :
      {code len value : ℕ}
      → Answers d (get_or opened i_cmd 0) code len value
      → (law : CbcBlock evp (owner_of g d).key (owner_of g d).iv)
      → respond evp rand dev d opened (blank g) w
        ≡ ok tt (record w {
          sent = w.sent ++ frame_of law.cipher rand (reply g opened code len value) ∷ [];
        })
  respond-reply {code} {len} {value} a law =
      respond-answer
      ∙ rw
          (
            answer-reply dev g d opened w a,
            count-reply g opened code len value (bit_or (get_or opened i_ctr 0) 0x80) w,
            transmit-frame_of (owner_of g d) law rand (reply g opened code len value) refl
                (len-small a) d w (key_owner-owner_of g d w gw),
          )
          refl

module _ (evp : Evp) (rand : Option ℕ) (rxbuf : List ℕ) (w : Rf) (g : Device) {xs : Cells Pair}
    (gw : Points w.devices w.gw g) (room : length rxbuf ≡ max_packet_len)
    (is : IsMap w.entries w.map xs) (b : ℕ) (bytes : List ℕ) (d : Device) (opened : List ℕ)
    (dv : Points w.devices (value_of (word32 (filled rxbuf (b ∷ bytes)) i_src) xs) d)
    (decrypted : unprotect evp d (filled rxbuf (b ∷ bytes)) w ≡ ok opened w)
    (good : crc_ok opened w ≡ ok true w) where
  opened_room : length opened ≡ max_packet_len
  opened_room =
      length-unprotect evp d (filled rxbuf (b ∷ bytes)) opened w w
        (length-filled evp rand rxbuf w g gw room is b bytes) decrypted

  -- A command without a response, acknowledgements among them, changes nothing but the buffer.
  pub recv_round-silent :
      answered (get_or opened i_cmd 0) ≡ false
      → recv_round evp rand (datagram (b ∷ bytes)) rxbuf w ≡ ok opened w
  recv_round-silent silent =
      recv_round-respond evp rand rxbuf w g gw room is b bytes d opened dv decrypted good
      ∙ rw
          (respond-silent evp rand g d (value_of (word32 (filled rxbuf (b ∷ bytes)) i_src) xs)
            opened w gw opened_room silent)
          refl

  -- A frame of a known device with a good checksum and a command that is answered, a poll when the
  -- queue is empty, is answered by one frame: that of `reply` under the key for the device, where
  -- the cipher keeps the laws of CBC. Nothing else of the state changes.
  pub recv_round-reply :
      {code len value : ℕ}
      → Answers d (get_or opened i_cmd 0) code len value
      → (law : CbcBlock evp (owner_of g d).key (owner_of g d).iv)
      → recv_round evp rand (datagram (b ∷ bytes)) rxbuf w
        ≡ ok opened (record w {
          sent = w.sent ++ frame_of law.cipher rand (reply g opened code len value) ∷ [];
        })
  recv_round-reply a law =
      recv_round-respond evp rand rxbuf w g gw room is b bytes d opened dv decrypted good
      ∙ rw
          (respond-reply evp rand g d (value_of (word32 (filled rxbuf (b ∷ bytes)) i_src) xs) opened
            w gw opened_room a law)
          refl
