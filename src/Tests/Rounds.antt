-- ===== src/Tests/Rounds.antt =====
-- `rfEnqueuePacket`, `rfAddDevice` and rounds of `rfRecvThread` in that world.
use mathlib.Core.Bool.{false≢true}
use rf_gateway.Base.{
  word16, span, ==_iff, sym, ◌∙◌, ◌+◌, length, ℕ, ◌≡◌, refl, ◌≢◌, true, false, Bool-cases, inl, inr,
  none, some, List, [], ◌∷◌, ◌++◌, arith, ◌==◌, if◌then◌else◌, ok, fault, get_or, replicate, slice,
  splice, word32, Returns, Points, write,
}
use rf_gateway.Checksum.{address_of, crc16}
use rf_gateway.HashMap
use rf_gateway.HashMap.View.{value_of, holds}
use rf_gateway.Rf.{Rf, Device, Packet}
use rf_gateway.Rf.Air.{frame_of}
use rf_gateway.Rf.Enqueue.{enqueue_packet, add_device}
use rf_gateway.Rf.Enqueue.Known.{enqueue_packet-known, enqueue_packet-fault, counted_up, tx_of}
use rf_gateway.Rf.Enqueue.Devices.{add_device-DeviceAdded, DeviceAdded, get-add_device}
use rf_gateway.Rf.Receive.{crc_ok, unprotect, recv_round, datagram}
use rf_gateway.Rf.Receive.Round.{filled, recv_round-corrupt}
use rf_gateway.Rf.Receive.Answers.{reply, Answers, read_reg}
use rf_gateway.Rf.Receive.Reply.{recv_round-silent, recv_round-reply}
use rf_gateway.Tests.Radio.{
  mirror, mirror_block, key, gateway, meter, packet, world, pairs, map-IsMap, gateway_at, meter_at,
  packet_at, reverse_onto,
}

enqueue_packet-known_example :
    enqueue_packet mirror (some 77) (replicate 256 0) 300 world
    ≡ ok 0 (record world {
      devices = write world.devices 201 (some (counted_up meter));
      packets = write world.packets 300 none;
      sent =
          frame_of
            (λ block. reverse_onto block [])
            (some 77)
            (tx_of gateway meter packet (replicate 256 0))
          ∷ [];
    })
enqueue_packet-known_example =
    enqueue_packet-known mirror (some 77) (replicate 256 0) 300 world gateway meter packet
      gateway_at packet_at refl map-IsMap meter_at (omega arith) refl (omega arith) (omega arith)
      (omega arith) (mirror_block key key)

-- The device at 202 joins.
abbrev joined : Device
joined = record { addr = 0; sn = 7; key = key; iv = key; ctr = 0; packet_queue = none }

abbrev bigger : Rf
bigger = record world { devices = write world.devices 202 (some joined) }

joined_at : Points bigger.devices 202 joined
unfolding write
joined_at = record { ne_null = omega arith; holds = refl }

meter_still_at : Points bigger.devices 201 meter
unfolding write
meter_still_at = record { ne_null = omega arith; holds = refl }

unused : bigger.entries 101 ≡ none
unfolding write
unused = refl

only_meter :
    holds (address_of 7) pairs ≡ true
    → (o : Device) × Points bigger.devices (value_of (address_of 7) pairs) o
      × (value_of (address_of 7) pairs ≢ 202)
only_meter hit = elim (Bool-cases (6 == address_of 7)) [
  | inl e ↦ rw e (meter, meter_still_at, omega arith)
  | inr e ↦ cc (rw e at hit)
]

add_device-DeviceAdded_example :
    Returns (DeviceAdded bigger pairs 101 202 joined) (add_device 101 true 202 bigger)
add_device-DeviceAdded_example =
    add_device-DeviceAdded bigger 101 true 202 joined map-IsMap joined_at (λ nz. unused) only_meter

get-add_device_example :
    Returns
      (λ r w'.
        (q : ℕ)
        → HashMap.get w'.map q w'.entries
          ≡ ok (if q == address_of 7 then 202 else value_of q pairs) w'.entries)
      (add_device 101 true 202 bigger)
get-add_device_example =
    get-add_device bigger 101 true 202 joined map-IsMap joined_at (λ nz. unused) only_meter
      (omega arith)

-- A packet for nobody, and one whose header promises 250 bytes.
abbrev astray : Packet
astray = record { bytes = 8 ∷ replicate 255 0; len = 15; origin = 0 }

abbrev oversized : Packet
oversized = record {
  bytes = 6 ∷ 0 ∷ 0 ∷ 0 ∷ (replicate 8 0 ++ 250 ∷ replicate 243 0);
  len = 256;
  origin = 0;
}

abbrev with_packet : Packet → Rf
with_packet p = record world { packets = write (λ a. none) 300 (some p) }

astray_at : Points (with_packet astray).packets 300 astray
unfolding write
astray_at = record { ne_null = omega arith; holds = refl }

oversized_at : Points (with_packet oversized).packets 300 oversized
unfolding write
oversized_at = record { ne_null = omega arith; holds = refl }

enqueue_packet-fault_example :
    enqueue_packet mirror (some 77) (replicate 256 0) 300 (with_packet oversized) ≡ fault
enqueue_packet-fault_example =
    enqueue_packet-fault mirror (some 77) (replicate 256 0) 300 (with_packet oversized) gateway
      meter oversized gateway_at oversized_at refl map-IsMap meter_at refl (omega arith)
      (omega arith) (omega arith)

-- Plain frames of the device: a read of a register, an acknowledgement, a read with a wrong
-- checksum, and one of a stranger.
abbrev read_frame : List ℕ
read_frame = 9 ∷ 0 ∷ 0 ∷ 0 ∷ 6 ∷ 0 ∷ 0 ∷ 0 ∷ 0 ∷ 5 ∷ 1 ∷ 2 ∷ 0 ∷ 237 ∷ 175 ∷ []

abbrev ack_frame : List ℕ
ack_frame = 9 ∷ 0 ∷ 0 ∷ 0 ∷ 6 ∷ 0 ∷ 0 ∷ 0 ∷ 0 ∷ 5 ∷ 1 ∷ 4 ∷ 0 ∷ 75 ∷ 5 ∷ []

abbrev torn_frame : List ℕ
torn_frame = 9 ∷ 0 ∷ 0 ∷ 0 ∷ 6 ∷ 0 ∷ 0 ∷ 0 ∷ 0 ∷ 5 ∷ 1 ∷ 2 ∷ 0 ∷ 237 ∷ 174 ∷ []

abbrev strange_frame : List ℕ
strange_frame = 9 ∷ 0 ∷ 0 ∷ 0 ∷ 7 ∷ 0 ∷ 0 ∷ 0 ∷ 0 ∷ 5 ∷ 1 ∷ 2 ∷ 0 ∷ []

abbrev zeros : List ℕ
zeros = replicate 256 0

read_good : crc_ok (filled zeros read_frame) world ≡ ok true world
unfolding crc_ok crc16 splice slice
read_good = refl

ack_good : crc_ok (filled zeros ack_frame) world ≡ ok true world
unfolding crc_ok crc16 splice slice
ack_good = refl

plain_frame :
    (tail : List ℕ)
    → get_or (filled zeros tail) 8 0 ≡ 0
    → unprotect mirror meter (filled zeros tail) world ≡ ok (filled zeros tail) world
unfolding unprotect
plain_frame tail plain = rw plain

read_from : word32 (filled zeros read_frame) 4 ≡ 6
unfolding splice
read_from = refl

sent_by_meter :
    (frame : List ℕ)
    → word32 (filled zeros frame) 4 ≡ 6
    → Points world.devices (value_of (word32 (filled zeros frame) 4) pairs) meter
sent_by_meter frame from = rw from meter_at

read_plain : get_or (filled zeros read_frame) 8 0 ≡ 0
unfolding splice
read_plain = refl

is_read : Answers meter (get_or (filled zeros read_frame) 11 0) 0x82 4 0x22
unfolding splice
is_read = read_reg

recv_round-reply_example :
    recv_round mirror (some 77) (datagram read_frame) zeros world
    ≡ ok (filled zeros read_frame) (record world {
      sent =
          frame_of
            (λ block. reverse_onto block [])
            (some 77)
            (reply gateway (filled zeros read_frame) 0x82 4 0x22)
          ∷ [];
    })
recv_round-reply_example =
    recv_round-reply mirror (some 77) zeros world gateway gateway_at refl map-IsMap 9
      (0 ∷ 0 ∷ 0 ∷ 6 ∷ 0 ∷ 0 ∷ 0 ∷ 0 ∷ 5 ∷ 1 ∷ 2 ∷ 0 ∷ 237 ∷ 175 ∷ []) meter
      (filled zeros read_frame) (sent_by_meter read_frame read_from)
      (plain_frame read_frame read_plain) read_good is_read (mirror_block key key)

ack_from : word32 (filled zeros ack_frame) 4 ≡ 6
unfolding splice
ack_from = refl

ack_plain : get_or (filled zeros ack_frame) 8 0 ≡ 0
unfolding splice
ack_plain = refl

is_ack : get_or (filled zeros ack_frame) 11 0 ≡ 4
unfolding splice
is_ack = refl

recv_round-silent_example :
    recv_round mirror (some 77) (datagram ack_frame) zeros world ≡ ok (filled zeros ack_frame) world
recv_round-silent_example =
    recv_round-silent mirror (some 77) zeros world gateway gateway_at refl map-IsMap 9
      (0 ∷ 0 ∷ 0 ∷ 6 ∷ 0 ∷ 0 ∷ 0 ∷ 0 ∷ 5 ∷ 1 ∷ 4 ∷ 0 ∷ 75 ∷ 5 ∷ []) meter (filled zeros ack_frame)
      (sent_by_meter ack_frame ack_from) (plain_frame ack_frame ack_plain) ack_good (rw is_ack refl)

torn_from : word32 (filled zeros torn_frame) 4 ≡ 6
unfolding splice
torn_from = refl

torn_plain : get_or (filled zeros torn_frame) 8 0 ≡ 0
unfolding splice
torn_plain = refl

torn_whole : length (filled zeros torn_frame) ≡ 256
unfolding splice
torn_whole = refl

torn_empty : get_or (filled zeros torn_frame) 12 0 ≡ 0
unfolding splice
torn_empty = refl

torn_differ :
    (word16 (filled zeros torn_frame) 13 == crc16 (span (filled zeros torn_frame) 4 9)) ≡ false
unfolding crc16 splice span
torn_differ = refl

torn_bad :
    word16 (filled zeros torn_frame) (13 + get_or (filled zeros torn_frame) 12 0)
    ≢ crc16 (span (filled zeros torn_frame) 4 (9 + get_or (filled zeros torn_frame) 12 0))
torn_bad = rw torn_empty λ e.
    let same : (word16 (filled zeros torn_frame) 13 == crc16 (span (filled zeros torn_frame) 4 9))
        ≡ true =
      (==_iff (word16 (filled zeros torn_frame) 13) (crc16 (span (filled zeros torn_frame) 4 9))).1
        e in
    false≢true (sym torn_differ ∙ same)

recv_round-corrupt_example :
    recv_round mirror (some 77) (datagram torn_frame) zeros world
    ≡ ok (filled zeros torn_frame) world
recv_round-corrupt_example =
    recv_round-corrupt mirror (some 77) zeros world gateway gateway_at refl map-IsMap 9
      (0 ∷ 0 ∷ 0 ∷ 6 ∷ 0 ∷ 0 ∷ 0 ∷ 0 ∷ 5 ∷ 1 ∷ 2 ∷ 0 ∷ 237 ∷ 174 ∷ []) meter
      (filled zeros torn_frame) (sent_by_meter torn_frame torn_from)
      (plain_frame torn_frame torn_plain) torn_whole (omega (arith, torn_empty)) torn_bad

strange : word32 (filled zeros strange_frame) 4 ≡ 7
unfolding splice
strange = refl
