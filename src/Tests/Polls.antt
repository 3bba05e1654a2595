-- ===== src/Tests/Polls.antt =====
-- A poll of the device that has a packet in its queue.
use rf_gateway.Base.{
  ℕ, ◌≡◌, ◌≢◌, refl, true, some, List, [], ◌∷◌, arith, write, ok, get_or, replicate, word32, splice,
  slice, Returns, Points,
}
use rf_gateway.Checksum.{crc16}
use rf_gateway.HashMap.View.{value_of}
use rf_gateway.LinkedList.{handle}
use rf_gateway.Rf.Air.{frame_of}
use rf_gateway.Rf.Receive.{crc_ok, unprotect, recv_round, datagram}
use rf_gateway.Rf.Receive.Round.{filled}
use rf_gateway.Rf.Receive.Reply.Poll.{Polled, polled, recv_round-Polled}
use rf_gateway.Tests.Life.{queued, busy, queue-IsList, queued_at}
use rf_gateway.Tests.Radio.{
  mirror, mirror_block, key, gateway, packet, pairs, map-IsMap, packet_at, reverse_onto,
}

abbrev poll_frame : List ℕ
poll_frame = 9 ∷ 0 ∷ 0 ∷ 0 ∷ 6 ∷ 0 ∷ 0 ∷ 0 ∷ 0 ∷ 5 ∷ 1 ∷ 0x85 ∷ 0 ∷ 226 ∷ 45 ∷ []

abbrev polling : List ℕ
polling = filled (replicate 256 0) poll_frame

poll_good : crc_ok polling busy ≡ ok true busy
unfolding crc_ok crc16 splice slice
poll_good = refl

poll_plain : unprotect mirror queued polling busy ≡ ok polling busy
unfolding unprotect splice
poll_plain = refl

polls : get_or polling 11 0 ≡ 0x85
unfolding splice
polls = refl

poll_from : word32 polling 4 ≡ 6
unfolding splice
poll_from = refl

polls_device : Points busy.devices (value_of (word32 polling 4) pairs) queued
polls_device = rw poll_from queued_at

not_gateway : value_of (word32 polling 4) pairs ≢ 200
not_gateway = rw poll_from (omega arith)

gateway_still_at : Points busy.devices 200 gateway
unfolding write
gateway_still_at = record { ne_null = omega arith; holds = refl }

recv_round-Polled_example :
    Returns
      (Polled busy
        (value_of (word32 polling 4) pairs)
        queued
        []
        (400, 300)
        polling
        (frame_of (λ block. reverse_onto block []) (some 77) (polled gateway polling packet)))
      (recv_round mirror (some 77) (datagram poll_frame) (replicate 256 0) busy)
recv_round-Polled_example =
    recv_round-Polled mirror (some 77) (replicate 256 0) busy gateway gateway_still_at refl
      map-IsMap 9 (0 ∷ 0 ∷ 0 ∷ 6 ∷ 0 ∷ 0 ∷ 0 ∷ 0 ∷ 5 ∷ 1 ∷ 0x85 ∷ 0 ∷ 226 ∷ 45 ∷ []) queued polling
      polls_device poll_plain poll_good (handle 400 400 1) [] (400, 300) packet polls refl
      queue-IsList packet_at refl (omega arith) (omega arith) (omega arith) not_gateway
      (mirror_block key key)
