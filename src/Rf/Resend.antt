-- ===== src/Rf/Resend.antt =====
-- `rfSendPacket` of rf.c, which sends the first packet of a device's queue.
use rf_gateway.Base.{
  ℕ, zero, suc, ◌+◌, ◌≡◌, refl, false, Bool-cases, inl, inr, not, Option, none, some, List, leb,
  length, if◌then◌else◌, Ptr, Heap, Run, ok, Cmd, fault, out_of_fuel, pure, ◌>>=◌, ◌>>◌, and_then,
  load, modify, patch, slice, Points, load-ok, ◌∙◌,
}
use rf_gateway.Crypto.{Evp, Coded, encrypt_packet}
use rf_gateway.LinkedList
use rf_gateway.LinkedList.{Handle, ListNodes}
use rf_gateway.Rf.{
  Rf, Device, Packet, send, seal, rand_byte, covered, put_coded, coded_or_fault, is_secret, i_ctr,
  in_nodes, in_nodes_result, in_devices, in_packets, in_packets_result,
}

module _ (evp : Evp) where
  -- The encryption of a queued packet in place, under the device's own key; the frame is 25 bytes
  -- from then on.
  protect_queued : Device → (packet : Ptr) → (sealed : List ℕ) → Cmd Rf (Unit {0})
  unfolding put_coded
  protect_queued d packet sealed = if not (is_secret sealed) then pure tt else do
    block ← slice sealed i_ctr 16
    out ← put_coded sealed (encrypt_packet evp block d.key d.iv)
    in_packets (modify packet (λ p. record p { bytes = out; len = 25 }))

  -- One round of the loop.
  send_first : Option ℕ → Device → Handle → Cmd Rf (Unit {0})
  unfolding protect_queued seal
  send_first rand d queue = do
    packet ← in_nodes (LinkedList.first queue)
    p ← in_packets (load packet)
    sealed ← seal rand p.bytes
    in_packets (modify packet (λ p. record p { bytes = sealed }))
    protect_queued d packet sealed
    p' ← in_packets (load packet)
    frame ← slice p'.bytes 0 p'.len
    send frame

  rounds_of : (Cmd Rf (Unit {0})) → Option ℕ → Device → Option Handle → Cmd Rf (Unit {0})
  unfolding send_first
  rounds_of rest rand d none = λ _. fault
  rounds_of rest rand d (some queue) =
      if LinkedList.empty queue then pure tt else send_first rand d queue >> rest

  -- `rand` gives the random byte of each round, the last round first.
  unfoldable pub send_packet : (rand : ℕ → Option ℕ) → ℕ → (dev : Ptr) → Cmd Rf (Unit {0})
  unfolding rounds_of
  send_packet rand zero dev = λ _. out_of_fuel
  send_packet rand (suc k) dev = do
    d ← in_devices (load dev)
    rounds_of (send_packet rand k dev) (rand k) d d.packet_queue

-- What holds of the state if a run ends well.
abbrev After : {A : Type 0} → (Rf → Type 0) → Run Rf A → Type 0
After P (ok a w) = P w
After P fault = Unit {0}
After P out_of_fuel = Unit {0}

-- The devices stay.
abbrev Keeps : {A : Type 0} → Rf → Run Rf A → Type 0
Keeps w = After λ w'. w'.devices ≡ w.devices

Keeps-bind :
    {A B : Type 0} (w : Rf) (r : Run Rf A) (k : A → Cmd Rf B)
    → Keeps w r
    → ((a : A) (w' : Rf) → Keeps w' (k a w'))
    → Keeps w (and_then r k)
Keeps-bind {B} w (ok a w') k same next = trans_keeps (k a w') (next a w')
  where
    trans_keeps : (r : Run Rf B) → Keeps w' r → Keeps w r
    trans_keeps (ok b w'') e = e ∙ same
    trans_keeps fault e = tt
    trans_keeps out_of_fuel e = tt
Keeps-bind w fault k same next = tt
Keeps-bind w out_of_fuel k same next = tt

module _ {A : Type 0} (w : Rf) where
  Keeps-nodes : (r : Run ListNodes A) → Keeps w (in_nodes_result w r)
  unfolding in_nodes_result
  Keeps-nodes (ok a h) = refl
  Keeps-nodes fault = tt
  Keeps-nodes out_of_fuel = tt

  Keeps-packets : (r : Run (Heap Packet) A) → Keeps w (in_packets_result w r)
  unfolding in_packets_result
  Keeps-packets (ok a h) = refl
  Keeps-packets fault = tt
  Keeps-packets out_of_fuel = tt

Keeps-patch : (w : Rf) (buf : List ℕ) (off : ℕ) (bytes : List ℕ) → Keeps w (patch buf off bytes w)
unfolding patch
Keeps-patch w buf off bytes = elim (Bool-cases (leb (off + length bytes) (length buf))) [
  | inl fits ↦ rw fits refl
  | inr over ↦ rw over tt
]

Keeps-slice : (w : Rf) (buf : List ℕ) (off n : ℕ) → Keeps w (slice buf off n w)
unfolding slice
Keeps-slice w buf off n = elim (Bool-cases (leb (off + n) (length buf))) [
  | inl fits ↦ rw fits refl
  | inr over ↦ rw over tt
]

Keeps-rand_byte : (w : Rf) (rand : Option ℕ) (buf : List ℕ) → Keeps w (rand_byte rand buf w)
unfolding rand_byte
Keeps-rand_byte w none buf = refl
Keeps-rand_byte w (some r) buf = Keeps-patch w buf _ _

Keeps-seal : (w : Rf) (rand : Option ℕ) (buf : List ℕ) → Keeps w (seal rand buf w)
unfolding seal covered
Keeps-seal w rand buf =
    Keeps-bind w (rand_byte rand buf w) _ (Keeps-rand_byte w rand buf) λ buf' w'.
      Keeps-bind w' (slice buf' _ _ w') _ (Keeps-slice w' buf' _ _)
        λ bytes w''. Keeps-patch w'' buf' _ _

Keeps-put_coded : (w : Rf) (buf : List ℕ) (c : Option Coded) → Keeps w (put_coded buf c w)
unfolding put_coded coded_or_fault
Keeps-put_coded w buf none = tt
Keeps-put_coded w buf (some c) = Keeps-patch w buf _ _

module _ (evp : Evp) where
  Keeps-protect_queued :
      (w : Rf) (d : Device) (packet : Ptr) (sealed : List ℕ)
      → Keeps w (protect_queued evp d packet sealed w)
  unfolding protect_queued in_packets
  Keeps-protect_queued w d packet sealed = elim (Bool-cases (is_secret sealed)) [
    | inl hidden ↦ rw hidden (
        Keeps-bind w (slice sealed i_ctr 16 w) _ (Keeps-slice w sealed i_ctr 16) λ block w'.
          Keeps-bind w' (put_coded sealed (encrypt_packet evp block d.key d.iv) w') _
            (Keeps-put_coded w' sealed _) λ out w''. Keeps-packets w'' _)
    | inr plain ↦ rw plain refl
  ]

  Keeps-send_first :
      (w : Rf) (rand : Option ℕ) (d : Device) (queue : Handle)
      → Keeps w (send_first evp rand d queue w)
  unfolding send_first in_nodes in_packets
  Keeps-send_first w rand d queue =
      Keeps-bind w (in_nodes (LinkedList.first queue) w) _ (Keeps-nodes w _) λ packet w1.
        Keeps-bind w1 (in_packets (load packet) w1) _ (Keeps-packets w1 _) λ p w2.
          Keeps-bind w2 (seal rand p.bytes w2) _ (Keeps-seal w2 rand p.bytes) λ sealed w3.
            Keeps-bind w3 (in_packets (modify packet _) w3) _ (Keeps-packets w3 _) λ u w4.
              Keeps-bind w4 (protect_queued evp d packet sealed w4) _
                (Keeps-protect_queued w4 d packet sealed)
                λ u w5. Keeps-bind w5 (in_packets (load packet) w5) _ (Keeps-packets w5 _) λ p' w6.
                  Keeps-bind w6 (slice p'.bytes 0 p'.len w6) _ (Keeps-slice w6 p'.bytes 0 p'.len)
                    λ frame w7. refl

-- A run that ends well, whatever the final state.
abbrev pub EndsWell : {A : Type 0} → Run Rf A → Type 0
EndsWell (ok a w) = Unit {0}
EndsWell fault = ⊥
EndsWell out_of_fuel = ⊥

never-bind :
    (w : Rf) (r : Run Rf (Unit {0})) (rest : Cmd Rf (Unit {0}))
    → Keeps w r
    → ((w' : Rf) → w'.devices ≡ w.devices → EndsWell (rest w') → ⊥)
    → EndsWell (and_then r (λ u. rest))
    → ⊥
never-bind w (ok a w') rest same never e = never w' same e
never-bind w fault rest same never e = e
never-bind w out_of_fuel rest same never e = e

-- With a packet in the queue, `rfSendPacket` does not end well, however many rounds it is given: it
-- sends the first packet again and again and never takes it out.
pub send_packet-endless :
    (evp : Evp) (rand : ℕ → Option ℕ) (k : ℕ) (dev : Ptr) (w : Rf) (d : Device) (q : Handle)
    → Points w.devices dev d
    → d.packet_queue ≡ some q
    → LinkedList.empty q ≡ false
    → ¬ EndsWell (send_packet evp rand k dev w)
unfolding send_packet rounds_of in_devices
send_packet-endless evp rand zero dev w d q at has more = λ e. e
send_packet-endless evp rand (suc k) dev w d q at has more =
    rw (load-ok at, has, more)
      (never-bind w (send_first evp (rand k) d q w) (send_packet evp rand k dev)
        (Keeps-send_first evp w (rand k) d q)
        λ w' same. send_packet-endless evp rand k dev w' d q (rw same at) has more)
