-- ===== src/Ws/Frame.antt =====
-- The second half of `wsRecvThread` of ws.c: the frames of a connection.
pub mod Mask
pub mod Handled
pub mod Carried
pub mod Overrun
pub mod Routes
pub mod Known
use rf_gateway.Base.{
  ℕ, ◌+◌, ◌-◌, ◌*◌, ◌/◌, ◌%◌, Bool, true, false, not, Option, none, some, List, [], ◌∷◌, ◌++◌, ltb,
  leb, ◌==◌, if◌then◌else◌, fault, out_of_fuel, Cmd, pure, ◌>>=◌, ◌>>◌, Ptr, null, store, modify,
  length, get_or, take, replicate, patch, slice, u8, u32, ◌>>>◌, word32, bit_and, bit_or, bit_xor,
  codes,
}
use rf_gateway.Crypto.{Evp}
use rf_gateway.Rf.{Packet, max_packet_len, in_packets}
use rf_gateway.Rf.Enqueue.{enqueue_packet}
use rf_gateway.Udp.{blank_packet}
use rf_gateway.Ws.{Client, buffer, keep, write_out, in_rf, ws_buffer_size}

-- `htons` and `htonl` on the little-endian hosts of the program.
abbrev pub htons : ℕ → ℕ
htons x = x % 256 * 256 + x / 256 % 256

abbrev pub htonl : ℕ → ℕ
htonl x = x % 256 * 16777216 + x / 256 % 256 * 65536 + x / 65536 % 256 * 256 + x / 16777216 % 256

module _ {S : Type 0} where
  -- `wsLen` and `keyOffset`. The first half of a long length is printed if it is not 0, no more.
  unfoldable pub frame_size : List ℕ → Cmd S (ℕ × ℕ)
  frame_size buf = do
    second ← slice buf 1 1
    let n = get_or second 0 0 - 0x80
    if n == 126
        then (do two ← slice buf 2 2; pure (htons (get_or two 0 0 + get_or two 1 0 * 256), 4))
        else if n == 127
        then (do slice buf 2 4; four ← slice buf 6 4; pure (htonl (word32 four 0), 10))
        else pure (n, 2)

  -- `recv(sockfd, buffer + length, WS_BUFFER_SIZE, 0)`, whose result -1, `none`, is kept in a
  -- `uint32_t`.
  unfoldable pub recv_at : List ℕ → (len : ℕ) → Option (List ℕ) → Cmd S (List ℕ × ℕ)
  recv_at buf len none = pure (buf, 4294967295)
  recv_at buf len (some bytes) = do
    let got = take ws_buffer_size bytes
    buf' ← patch buf len got
    pure (buf', length got)

  -- The loop that waits for the rest of a frame; where no more arrives it goes on waiting.
  unfoldable pub fill : List (Option (List ℕ)) → List ℕ → (len target : ℕ) → Cmd S (List ℕ)
  unfolding recv_at
  fill [] buf len target = if len == target then pure buf else λ _. out_of_fuel
  fill (chunk ∷ chunks) buf len target =
      let more : Cmd S (List ℕ) = (do
        (buf', i) ← recv_at buf len chunk
        fill chunks buf' (len + i) target) in
      if len == target then pure buf else more

  unfoldable pub rest_of_frame :
      List (Option (List ℕ)) → List ℕ → (len ws_len key_offset : ℕ) → Cmd S (List ℕ)
  unfolding fill
  rest_of_frame chunks buf len ws_len key_offset =
      if leb 126 ws_len then fill chunks buf len (u32 (ws_len + key_offset + 4)) else pure buf

-- The loop that takes the mask off; `j` counts from the first byte of the payload.
unfoldable pub unmask : (mask : List ℕ) → (j : ℕ) → List ℕ → List ℕ
unmask mask j [] = []
unmask mask j (b ∷ bs) = bit_xor b (get_or mask (bit_and j 0x3) 0) ∷ unmask mask (j + 1) bs

-- What one round of the loop meets: the first `recv`, those for the rest of a long frame, whether
-- `malloc` gives `data` and `baseData`, what `calloc` gives, a random byte and the stack.
pub record Arrival : Type 0 where
  pub first : Option (List ℕ)
  pub chunks : List (Option (List ℕ))
  pub data_room : Bool
  pub base_room : Bool
  pub fresh : Ptr
  pub rand : Option ℕ
  pub stack : List ℕ

abbrev pub accepted : List ℕ
accepted = codes "{\"response\":\"OK\",\"status\":202,\"data\":[]}"

abbrev pub refused : List ℕ
refused = codes "{\"response\":\"ERR\",\"status\":403,\"data\":[]}"

-- The packet with the bytes that the text stood for.
abbrev pub packet_of : (sockfd : ℕ) → List ℕ → (len : ℕ) → Packet
packet_of sockfd bytes n = record { bytes = bytes; len = n; origin = sockfd }

-- The frame around a response, in the buffer and on the connection.
unfoldable pub reply : (response : List ℕ) → Cmd Client (Unit {0})
reply response = do
  buf ← buffer
  let ws_len = length response
  let key_offset = if leb 126 ws_len then 4 else 2
  let head =
      if leb 126 ws_len
      then 0x7e ∷ bit_and (ws_len >>> 8) 0xff ∷ bit_and ws_len 0xff ∷ []
      else bit_and ws_len 0xff ∷ []
  headed ← patch buf 0 (0x81 ∷ head)
  filled ← patch headed key_offset response
  keep filled
  frame ← slice filled 0 (ws_len + key_offset)
  write_out frame

module _ (evp : Evp) where
  -- `memcpy` and what follows it, for a packet that `calloc` gave.
  unfoldable pub hand_over : Arrival → (sockfd : ℕ) → (base : List ℕ) → Cmd Client (Unit {0})
  hand_over a sockfd base = if a.fresh == null then reply refused else do
    in_rf (in_packets (store a.fresh (some blank_packet)))
    filled ← patch (replicate max_packet_len 0) 0 base
    in_rf (in_packets (modify a.fresh (λ p. packet_of sockfd filled (length base))))
    in_rf (enqueue_packet evp a.rand a.stack a.fresh)
    reply accepted

  -- What `EVP_DecodeBlock` makes of the payload, `none` for its result -1, which is kept in a
  -- `size_t`: the loop that prints the bytes then leaves the block.
  unfoldable pub take_base :
      Arrival → (sockfd : ℕ) → (text : List ℕ) → Option (List ℕ) → Cmd Client (Unit {0})
  unfolding hand_over
  take_base a sockfd text none = λ _. fault
  take_base a sockfd text (some base) =
      if leb (length base) (length text) then hand_over a sockfd base else λ _. fault

  module _ (decode_block : List ℕ → Option (List ℕ)) where
    -- A frame of data, `len` of whose bytes are in the buffer.
    unfoldable pub data_frame : Arrival → (sockfd len : ℕ) → Cmd Client (Unit {0})
    unfolding frame_size rest_of_frame unmask take_base
    data_frame a sockfd len = do
      buf ← buffer
      (ws_len, key_offset) ← frame_size buf
      whole ← rest_of_frame a.chunks buf len ws_len key_offset
      keep whole
      mask ← slice whole key_offset 4
      if not a.data_room then pure tt else do
        masked ← slice whole (key_offset + 4) ws_len
        let text = unmask mask 0 masked
        if not a.base_room then pure tt else take_base a sockfd text (decode_block text)

    -- The result is whether the loop goes on.
    unfoldable pub one_frame : Arrival → (sockfd len : ℕ) → Cmd Client Bool
    unfolding data_frame
    one_frame a sockfd len = do
      buf ← buffer
      two ← slice buf 0 2
      let first = get_or two 0 0
      if bit_and first 0x0f == 0x08
          then (do
            closing ← patch buf 0 (0x88 ∷ 0x00 ∷ [])
            keep closing
            write_out (0x88 ∷ 0x00 ∷ [])
            pure false)
          else if bit_and first 0x0f == 0x09
          then (do
            pong ← patch buf 0 (bit_or (bit_and first 0xf0) 0x0a ∷ [])
            keep pong
            bytes ← slice pong 0 len
            write_out bytes
            pure true)
          else if ltb 0x80 (get_or two 1 0)
          then (do data_frame a sockfd len; pure true)
          else pure true

    -- One round of `while (length)`. The result -1 of `recv` is not 0, so the loop goes on.
    unfoldable pub frame_round : (sockfd : ℕ) → Arrival → Cmd Client Bool
    unfolding one_frame
    frame_round sockfd a = elim a.first [
      | none ↦ pure true
      | some bytes ↦ do
        let got = take ws_buffer_size bytes
        if length got == 0 then pure false else do
          buf ← buffer
          filled ← patch buf 0 got
          keep filled
          one_frame a sockfd (length got)
    ]

    -- The loop, for what arrives; where no more arrives it goes on waiting.
    unfoldable pub frames : (sockfd : ℕ) → List Arrival → Cmd Client (Unit {0})
    unfolding frame_round
    frames sockfd [] = λ _. out_of_fuel
    frames sockfd (a ∷ more) = do
      let rest = frames sockfd more
      goes_on ← frame_round sockfd a
      if goes_on then rest else pure tt
