-- ===== src/Rf/Receive/Round.antt =====
-- What a round of `rfRecvThread` does with what it receives, up to the response.
use rf_gateway.Base.{
  ℕ, ◌+◌, ◌%◌, ◌/◌, ◌≤◌, ◌≡◌, ◌≢◌, ◌&&◌, get_or, u8, span, slice-ok, get_or-span, word16, refl,
  Bool, true, false, Bool-cases, inl, inr, Option, List, ◌∷◌, arith, ◌==◌, ◌||◌, if◌then◌else◌, ok,
  pure, Ptr, null, Points, Points-not_null, load-ok, length, take, replicate, length-take,
  length-splice, ◌>>◌, bytes32, word32, splice, patch-ok, ◌∙◌,
}
use rf_gateway.Checksum.{crc16}
use rf_gateway.Checksum.Bitwise.{crc16-word}
use rf_gateway.Crypto.{Evp}
use rf_gateway.Links.{Cells}
use rf_gateway.HashMap.View.{Pair, IsMap, value_of, holds, value_of-null}
use rf_gateway.HashMap.Lookup.{get-value_of}
use rf_gateway.Rf.{
  Rf, Device, i_src, i_len, i_data, covered, max_packet_len, in_devices, in_entries,
}
use rf_gateway.Rf.Receive.{
  failed, datagram, recv_round, handle_frame, respond, unprotect, crc_ok, c_discover, c_read_reg,
  c_write_reg, c_notify, c_poll,
}

-- The buffer after `recvfrom`, and the response buffer at the start of a round.
abbrev pub filled : List ℕ → List ℕ → List ℕ
filled rxbuf bytes = splice rxbuf 0 (take max_packet_len bytes)

abbrev pub blank : Device → List ℕ
blank g = splice (replicate max_packet_len 0) i_src (bytes32 g.addr)

-- The commands that get a response.
abbrev pub answered : ℕ → Bool
answered cmd =
    (cmd == c_discover)
    || ((cmd == c_read_reg) || ((cmd == c_write_reg) || ((cmd == c_notify) || (cmd == c_poll))))

-- The test of the checksum on a buffer that does not have it.
crc_ok-wrong :
    (buf : List ℕ) (w : Rf)
    → length buf ≡ max_packet_len
    → get_or buf i_len 0 ≤ 241
    → word16 buf (i_data + get_or buf i_len 0) ≢ crc16 (span buf i_src (9 + get_or buf i_len 0))
    → crc_ok buf w ≡ ok false w
unfolding crc_ok covered
crc_ok-wrong buf w whole fits bad =
    let n = get_or buf i_len 0 in
    let short : u8 (9 + n) ≡ 9 + n = omega arith in
    let crc = crc16 (span buf i_src (9 + n)) in
    let next : i_data + n + 0 ≡ i_data + n = omega arith in
    let low : get_or (span buf (i_data + n) 2) 0 0 ≡ get_or buf (i_data + n) 0 =
      rw next at (get_or-span buf (i_data + n) 2 0) in
    let high : get_or (span buf (i_data + n) 2) 1 0 ≡ get_or buf (i_data + n + 1) 0 =
      get_or-span buf (i_data + n) 2 1 in
    let differ : ((get_or buf (i_data + n) 0 == crc % 256)
          && (get_or buf (i_data + n + 1) 0 == crc / 256 % 256))
        ≡ false =
      ground (arith, bad, crc16-word (span buf i_src (9 + n))) in
    rw
      (
        short,
        slice-ok buf i_src (9 + n) w (omega arith),
        slice-ok buf (i_data + n) 2 w (omega arith),
        low,
        high,
        differ,
      )
      refl

module _ (evp : Evp) (rand : Option ℕ) (rxbuf : List ℕ) (w : Rf) (g : Device) {xs : Cells Pair}
    (gw : Points w.devices w.gw g) (room : length rxbuf ≡ max_packet_len)
    (is : IsMap w.entries w.map xs) where
  -- A failed call and an end of file end the round without a change.
  pub recv_round-failed : recv_round evp rand failed rxbuf w ≡ ok rxbuf w
  unfolding recv_round in_devices
  recv_round-failed = rw (load-ok gw)

  module _ (b : ℕ) (bytes : List ℕ) where
    abbrev rx : List ℕ
    rx = filled rxbuf (b ∷ bytes)

    abbrev sender : Ptr
    sender = value_of (word32 rx i_src) xs

    pub length-filled : length rx ≡ max_packet_len
    length-filled =
        length-splice rxbuf 0 (take max_packet_len (b ∷ bytes))
          (omega (arith, length-take max_packet_len (b ∷ bytes)))
        ∙ room

    pub recv_round-lookup :
        recv_round evp rand (datagram (b ∷ bytes)) rxbuf w
        ≡ (if sender == null then ok rx w else handle_frame evp rand sender rx (blank g) w)
    unfolding recv_round in_devices in_entries
    recv_round-lookup =
        let got = take max_packet_len (b ∷ bytes) in
        let zeros : length {A = ℕ} (replicate max_packet_len 0) ≡ max_packet_len = refl in
        rw
          (
            load-ok gw,
            patch-ok (replicate max_packet_len 0) i_src (bytes32 g.addr) w (omega (arith, zeros)),
            patch-ok rxbuf 0 got w (omega (arith, length-take max_packet_len (b ∷ bytes))),
            get-value_of is (word32 rx i_src),
          )
          (elim (Bool-cases (sender == null)) [ inl e ↦ rw e refl | inr e ↦ rw e refl ])

    -- A frame of no known device is dropped: the buffer holds it, and nothing else changes.
    pub recv_round-unknown :
        holds (word32 rx i_src) xs ≡ false
        → recv_round evp rand (datagram (b ∷ bytes)) rxbuf w ≡ ok rx w
    recv_round-unknown miss = recv_round-lookup ∙ rw (value_of-null (word32 rx i_src) xs miss) refl

    module _ (d : Device) (opened : List ℕ) (dv : Points w.devices sender d)
        (decrypted : unprotect evp d rx w ≡ ok opened w) where
      -- A frame of a known device with at most 241 bytes of payload is dropped if, after decryption,
      -- the two bytes behind the payload, the low one first, are not the checksum of the bytes from
      -- the source address to the end of the payload: it is left in the buffer, nothing is sent, and
      -- no counter or queue moves.
      pub recv_round-corrupt :
          length opened ≡ max_packet_len
          → get_or opened i_len 0 ≤ 241
          → word16 opened (i_data + get_or opened i_len 0)
            ≢ crc16 (span opened i_src (9 + get_or opened i_len 0))
          → recv_round evp rand (datagram (b ∷ bytes)) rxbuf w ≡ ok opened w
      unfolding handle_frame in_devices
      recv_round-corrupt whole fits bad =
          recv_round-lookup
          ∙ rw (Points-not_null dv, load-ok dv, decrypted, crc_ok-wrong opened w whole fits bad)
              refl

      -- With a good checksum the response decides, and the buffer stays.
      pub recv_round-respond :
          crc_ok opened w ≡ ok true w
          → recv_round evp rand (datagram (b ∷ bytes)) rxbuf w
            ≡ (respond evp rand sender d opened (blank g) >> pure opened) w
      unfolding handle_frame in_devices
      recv_round-respond good =
          recv_round-lookup ∙ rw (Points-not_null dv, load-ok dv, decrypted, good) refl
