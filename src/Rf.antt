-- ===== src/Rf.antt =====
-- The state of rf.c and what its two senders share. The static `rf` and the objects that it reaches
-- are one record; what the environment gives (random bytes, stack contents, received bytes) are
-- arguments. The functions themselves are in the modules below.
pub mod Enqueue
pub mod Frame
pub mod Life
pub mod Resend
pub mod Air
pub mod Receive
pub mod Parts
pub mod Seal
use rf_gateway.Base.{
  ℕ, ◌+◌, ◌*◌, ◌%◌, ◌^◌, Bool, true, false, not, Option, none, some, List, [], ◌∷◌, ◌++◌, ◌==◌,
  if◌then◌else◌, Ptr, null, Heap, Run, ok, fault, out_of_fuel, Cmd, pure, ◌>>=◌, ◌>>◌, load, modify,
  free, get_or, length, patch, slice, u8, bytes16, bytes32, word32, bit_and,
}
use rf_gateway.Checksum.{crc16}
use rf_gateway.Crypto.{Evp, Coded, encrypt_packet}
use rf_gateway.HashMap.{HashMap, Entries}
use rf_gateway.LinkedList.{Handle, ListNodes}

-- The constants of const.h.
abbrev pub max_packet_len : ℕ
max_packet_len = 256

abbrev pub i_dst : ℕ
i_dst = 0

abbrev pub i_src : ℕ
i_src = 4

abbrev pub i_ctrl : ℕ
i_ctrl = 8

abbrev pub i_ctr : ℕ
i_ctr = 9

abbrev pub i_rnd : ℕ
i_rnd = 10

abbrev pub i_cmd : ℕ
i_cmd = 11

abbrev pub i_len : ℕ
i_len = 12

abbrev pub i_data : ℕ
i_data = 13

-- `RfDevice_t`; the queue is `none` for a null pointer.
pub record Device : Type 0 where
  pub addr : ℕ
  pub sn : ℕ
  pub key : List ℕ
  pub iv : List ℕ
  pub ctr : ℕ
  pub packet_queue : Option Handle

-- `RfPacket_t`, without the sender's address in `misc`, which nothing reads.
pub record Packet : Type 0 where
  pub bytes : List ℕ
  pub len : ℕ
  pub origin : ℕ

-- `Rf_t` with its objects. `sock` is `none` for a negative descriptor. `sent` collects the frames
-- given to `send` on `rf.sock`, `closed` the descriptors given to `close`, both in order.
pub record Rf : Type 0 where
  pub run : Bool
  pub sock : Option ℕ
  pub gw : Ptr
  pub map : HashMap
  pub entries : Entries
  pub nodes : ListNodes
  pub devices : Heap Device
  pub packets : Heap Packet
  pub sent : List (List ℕ)
  pub closed : List ℕ

-- A function of another component, on its part of the state.
module _ {A : Type 0} where
  pub in_entries_result : Rf → Run Entries A → Run Rf A
  in_entries_result w (ok a h) = ok a (record w { entries = h })
  in_entries_result w fault = fault
  in_entries_result w out_of_fuel = out_of_fuel

  unfoldable pub in_entries : Cmd Entries A → Cmd Rf A
  unfolding in_entries_result
  in_entries c w = in_entries_result w (c w.entries)

  pub in_nodes_result : Rf → Run ListNodes A → Run Rf A
  in_nodes_result w (ok a h) = ok a (record w { nodes = h })
  in_nodes_result w fault = fault
  in_nodes_result w out_of_fuel = out_of_fuel

  unfoldable pub in_nodes : Cmd ListNodes A → Cmd Rf A
  unfolding in_nodes_result
  in_nodes c w = in_nodes_result w (c w.nodes)

  in_devices_result : Rf → Run (Heap Device) A → Run Rf A
  in_devices_result w (ok a h) = ok a (record w { devices = h })
  in_devices_result w fault = fault
  in_devices_result w out_of_fuel = out_of_fuel

  unfoldable pub in_devices : Cmd (Heap Device) A → Cmd Rf A
  unfolding in_devices_result
  in_devices c w = in_devices_result w (c w.devices)

  in_packets_result : Rf → Run (Heap Packet) A → Run Rf A
  in_packets_result w (ok a h) = ok a (record w { packets = h })
  in_packets_result w fault = fault
  in_packets_result w out_of_fuel = out_of_fuel

  unfoldable pub in_packets : Cmd (Heap Packet) A → Cmd Rf A
  unfolding in_packets_result
  in_packets c w = in_packets_result w (c w.packets)

abbrev pub state : Cmd Rf Rf
state w = ok w w

abbrev pub send : List ℕ → Cmd Rf (Unit {0})
send frame w = ok tt (record w { sent = w.sent ++ frame ∷ [] })

-- `RAND_bytes(buf + I_RND, 1)`: `none` where it fails, which the callers do not look at.
unfoldable pub rand_byte : Option ℕ → List ℕ → Cmd Rf (List ℕ)
rand_byte none buf = pure buf
rand_byte (some r) buf = patch buf i_rnd (r ∷ [])

-- The bytes that `crc16(buf + I_SRC, 9 + buf[I_LEN])` reads; the length is cut to a `uint8_t`.
unfoldable pub covered : List ℕ → Cmd Rf (List ℕ)
covered buf = slice buf i_src (u8 (9 + get_or buf i_len 0))

-- The random byte and the checksum behind the payload.
unfoldable pub seal : Option ℕ → List ℕ → Cmd Rf (List ℕ)
unfolding rand_byte covered
seal rand buf = do
  buf' ← rand_byte rand buf
  bytes ← covered buf'
  patch buf' (i_data + get_or buf' i_len 0) (bytes16 (crc16 bytes))

-- `buf[I_CTRL] & 0x80`
abbrev pub is_secret : List ℕ → Bool
is_secret buf = not (bit_and (get_or buf i_ctrl 0) 0x80 == 0)

-- `dev->sn & 0xF0000000`
abbrev pub is_gateway : Device → Bool
is_gateway d = not (bit_and d.sn 0xf0000000 == 0)

-- A device of the gateway class is sent frames under the sender's own key.
unfoldable pub key_owner : Device → Cmd Rf Device
key_owner d = if is_gateway d then (do w ← state; in_devices (load w.gw)) else pure d

coded_or_fault : Option Coded → Cmd Rf Coded
coded_or_fault none = λ _. fault
coded_or_fault (some c) = pure c

-- What the result of a call of crypto.c does to its buffer at `I_CTR`.
unfoldable pub put_coded : List ℕ → Option Coded → Cmd Rf (List ℕ)
unfolding coded_or_fault
put_coded buf c = do c' ← coded_or_fault c; patch buf i_ctr c'.out

module _ (evp : Evp) where
  -- The block of 16 bytes from the counter on is encrypted in place, if the control byte asks.
  unfoldable pub protect : Device → List ℕ → Cmd Rf (List ℕ)
  unfolding key_owner put_coded
  protect d buf = if not (is_secret buf) then pure buf else do
    owner ← key_owner d
    block ← slice buf i_ctr 16
    put_coded buf (encrypt_packet evp block owner.key owner.iv)

  -- The end of `rfEnqueuePacket` and of a response in `rfRecvThread`.
  unfoldable pub transmit : Option ℕ → Device → List ℕ → Cmd Rf (Unit {0})
  unfolding seal protect
  transmit rand d buf = do
    sealed ← seal rand buf
    ready ← protect d sealed
    frame ← slice ready 0 25
    send frame
