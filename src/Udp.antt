-- ===== src/Udp.antt =====
-- udp.c: the socket of the hosts, whose datagrams become packets for rf.c.
pub mod Listen
use rf_gateway.Base.{
  ℕ, ◌+◌, Bool, true, false, not, Option, none, some, List, [], ◌∷◌, ◌==◌, if◌then◌else◌, Ptr, null,
  Cmd, pure, ◌>>=◌, ◌>>◌, store, free, modify, length, take, replicate, splice,
}
use rf_gateway.Crypto.{Evp}
use rf_gateway.Rf.{Rf, Packet, max_packet_len, in_packets}
use rf_gateway.Rf.Enqueue.{enqueue_packet}

-- `Udp_t`
pub record Udp : Type 0 where
  pub sock : Option ℕ
  pub run : Bool

-- `socket` gives a descriptor or fails, `bind` succeeds or not.
abbrev pub init : (socket : Option ℕ) (binds : Bool) → Udp → ℕ × Udp
init none binds udp = (1, record udp { sock = none })
init (some fd) false udp = (2, record udp { sock = some fd })
init (some fd) true udp = (0, record { sock = some fd; run = true })

-- `udpDeInit`: the result, the descriptor that is closed, and the new state.
abbrev pub de_init : Udp → ℕ × Option ℕ × Udp
de_init udp = (0, udp.sock, record udp { run = false })

-- `calloc` of a packet.
abbrev pub blank_packet : Packet
blank_packet = record { bytes = replicate max_packet_len 0; len = 0; origin = 0 }

-- The packet after `recvfrom`: the bytes of a longer datagram are cut.
abbrev pub received_packet : (sock : ℕ) → List ℕ → Packet
received_packet sock bytes =
    let got = take max_packet_len bytes in
    record { bytes = splice (replicate max_packet_len 0) 0 got; len = length got; origin = sock }

module _ (evp : Evp) where
  -- What follows the receipt of a datagram; the result of `rfEnqueuePacket` is not looked at.
  forward :
      Option ℕ
      → (stack : List ℕ) → (sock : ℕ) → (packet : Ptr) → Option (List ℕ)
      → Cmd Rf (Unit {0})
  forward rand stack sock packet none = in_packets (free packet)
  forward rand stack sock packet (some bytes) = do
    in_packets (modify packet (λ p. received_packet sock bytes))
    enqueue_packet evp rand stack packet
    pure tt

  -- One round of the loop of `udpListener`: `fresh` is what `calloc` gives, `none` stands for a
  -- `recvfrom` that fails.
  unfoldable pub listen_round :
      Option ℕ → (stack : List ℕ) → (sock : ℕ) → (fresh : Ptr) → Option (List ℕ) → Cmd Rf (Unit {0})
  unfolding forward
  listen_round rand stack sock fresh received =
      if fresh == null
      then pure tt
      else do in_packets (store fresh (some blank_packet)); forward rand stack sock fresh received
