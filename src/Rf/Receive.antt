-- ===== src/Rf/Receive.antt =====
-- One round of the loop of `rfRecvThread` in rf.c.
pub mod Round
pub mod Answers
pub mod Reply
use rf_gateway.Base.{
  ℕ, ◌+◌, ◌%◌, Bool, true, false, ◌&&◌, not, Option, none, some, List, [], ◌∷◌, ◌==◌, if◌then◌else◌,
  Ptr, null, Cmd, fault, pure, ◌>>=◌, ◌>>◌, load, modify, free, patch, slice, take, get_or,
  replicate, length, bit_or, bytes16, bytes32, word32,
}
use rf_gateway.Checksum.{crc16}
use rf_gateway.Crypto.{Evp, decrypt_packet}
use rf_gateway.HashMap
use rf_gateway.LinkedList
use rf_gateway.LinkedList.{Handle}
use rf_gateway.Rf.{
  Rf, Device, Packet, max_packet_len, i_dst, i_src, i_ctrl, i_ctr, i_cmd, i_len, i_data, state,
  in_entries, in_devices, in_packets, in_nodes, is_secret, covered, put_coded, transmit,
}

-- The command codes of const.h.
abbrev pub c_discover : ℕ
c_discover = 0x01

abbrev pub c_discover_resp : ℕ
c_discover_resp = 0x81

abbrev pub c_read_reg : ℕ
c_read_reg = 0x02

abbrev pub c_rw_resp : ℕ
c_rw_resp = 0x82

abbrev pub c_write_reg : ℕ
c_write_reg = 0x03

abbrev pub c_notify : ℕ
c_notify = 0x84

abbrev pub c_ack : ℕ
c_ack = 0x04

abbrev pub c_poll : ℕ
c_poll = 0x85

-- What `recvfrom` gives: an error, or the bytes of a datagram, none at an end of file.
pub data Received : Type 0 where
  failed : Received
  datagram : List ℕ → Received

-- A response with four bytes of a constant.
fill_answer : (cmd value : ℕ) → List ℕ → Cmd Rf (List ℕ × Bool)
fill_answer cmd value txbuf = do
  txbuf ← patch txbuf i_cmd (cmd ∷ [])
  txbuf ← patch txbuf i_len (4 ∷ [])
  txbuf ← patch txbuf i_data (replicate 4 value)
  pure (txbuf, true)

-- `list_pop` on the queue of a device, and the copy of the packet that it returns.
pop_answer : (dev : Ptr) → Handle → List ℕ → Cmd Rf (List ℕ × Bool)
pop_answer dev queue txbuf = do
  (next, queue') ← in_nodes (LinkedList.pop queue)
  in_devices (modify dev (λ d. record d { packet_queue = some queue' }))
  p ← in_packets (load next)
  copied ← slice p.bytes 0 p.len
  txbuf' ← patch txbuf 0 copied
  pure (txbuf', true)

poll_answer : (dev : Ptr) → Option Handle → List ℕ → Cmd Rf (List ℕ × Bool)
unfolding pop_answer
poll_answer dev none txbuf = λ _. fault
poll_answer dev (some queue) txbuf =
    if LinkedList.empty queue
    then (do
      txbuf ← patch txbuf i_cmd (c_ack ∷ [])
      txbuf ← patch txbuf i_len (0 ∷ [])
      pure (txbuf, true))
    else pop_answer dev queue txbuf

-- The switch over the command: the response so far, and `sendResp`.
unfoldable pub answer : (cmd : ℕ) → (dev : Ptr) → Device → List ℕ → Cmd Rf (List ℕ × Bool)
unfolding fill_answer poll_answer
answer cmd dev d txbuf =
    if cmd == c_discover
    then fill_answer c_discover_resp 0x11 txbuf
    else if cmd == c_read_reg
    then fill_answer c_rw_resp 0x22 txbuf
    else if cmd == c_write_reg
    then fill_answer c_rw_resp 0x33 txbuf
    else if cmd == c_notify
    then fill_answer c_ack 0x44 txbuf
    else if cmd == c_poll
    then poll_answer dev d.packet_queue txbuf
    else pure (txbuf, false)

-- `memcmp(rxbuf + 13 + rxbuf[I_LEN], &crc, 2) == 0`
unfoldable pub crc_ok : List ℕ → Cmd Rf Bool
unfolding covered
crc_ok rxbuf = do
  bytes ← covered rxbuf
  stored ← slice rxbuf (i_data + get_or rxbuf i_len 0) 2
  let crc = bytes16 (crc16 bytes)
  pure ((get_or stored 0 0 == get_or crc 0 0) && (get_or stored 1 0 == get_or crc 1 0))

module _ (evp : Evp) where
  -- The block from the counter on is decrypted in place, if the control byte says so.
  unfoldable pub unprotect : Device → List ℕ → Cmd Rf (List ℕ)
  unfolding put_coded
  unprotect d rxbuf =
      if not (is_secret rxbuf)
      then pure rxbuf
      else do block ← slice rxbuf i_ctr 16; put_coded rxbuf (decrypt_packet evp block d.key d.iv)

  -- What follows a good checksum.
  unfoldable pub respond :
      Option ℕ → (dev : Ptr) → Device → (rxbuf txbuf : List ℕ) → Cmd Rf (Unit {0})
  unfolding answer transmit
  respond rand dev d rxbuf txbuf = do
    source ← slice rxbuf i_src 4
    txbuf ← patch txbuf 0 source
    txbuf ← (if is_secret rxbuf then patch txbuf i_ctrl (0x80 ∷ []) else pure txbuf)
    (txbuf, send_resp) ← answer (get_or rxbuf i_cmd 0) dev d txbuf
    if not send_resp then pure tt else do
      txbuf ← patch txbuf i_ctr (bit_or (get_or rxbuf i_ctr 0) 0x80 ∷ [])
      transmit evp rand d txbuf

  -- A datagram from a known device.
  unfoldable pub handle_frame : Option ℕ → (dev : Ptr) → (rxbuf txbuf : List ℕ) → Cmd Rf (List ℕ)
  unfolding unprotect crc_ok respond
  handle_frame rand dev rxbuf txbuf = do
    d ← in_devices (load dev)
    rxbuf ← unprotect d rxbuf
    good ← crc_ok rxbuf
    if good then respond rand dev d rxbuf txbuf else pure tt
    pure rxbuf

  -- One round: `rxbuf` keeps its bytes from round to round, the first ones are overwritten.
  unfoldable pub recv_round : Option ℕ → Received → (rxbuf : List ℕ) → Cmd Rf (List ℕ)
  unfolding handle_frame
  recv_round rand failed rxbuf = do w ← state; g ← in_devices (load w.gw); pure rxbuf
  recv_round rand (datagram []) rxbuf = do w ← state; g ← in_devices (load w.gw); pure rxbuf
  recv_round rand (datagram (b ∷ bytes)) rxbuf = do
    w ← state
    g ← in_devices (load w.gw)
    txbuf ← patch (replicate max_packet_len 0) i_src (bytes32 g.addr)
    rxbuf ← patch rxbuf 0 (take max_packet_len (b ∷ bytes))
    dev ← in_entries (HashMap.get w.map (word32 rxbuf i_src))
    if dev == null then pure rxbuf else handle_frame rand dev rxbuf txbuf
