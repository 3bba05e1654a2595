-- ===== src/Ws/Connection.antt =====
-- `wsRecvThread` of ws.c as a whole: its arrays, the handshake, the frames, and the end.
use rf_gateway.Base.{
  ℕ, Option, none, some, List, [], ◌∷◌, ◌++◌, ◌==◌, if◌then◌else◌, ok, Cmd, pure, ◌>>=◌, ◌>>◌,
  length, take, replicate, patch,
}
use rf_gateway.Crypto.{Evp}
use rf_gateway.Ws.{Client, keep, ws_buffer_size}
use rf_gateway.Ws.Frame.{Arrival, frames}
use rf_gateway.Ws.Handshake.{Digest, handshake}

-- The arrays of the thread, with what they hold before: `keyIn` of 128 bytes, `keyOut` of 20 and
-- `keyBase` of 30.
pub record Arrays : Type 0 where
  pub key_in : List ℕ
  pub key_out : List ℕ
  pub key_base : List ℕ

abbrev close : (sockfd : ℕ) → Cmd Client (Unit {0})
close sockfd c = ok tt (record c { closed = c.closed ++ sockfd ∷ [] })

-- `memset` of both arrays, with the same length: `keyOut` as it is declared has no room for it.
unfoldable pub clear_arrays : Arrays → Cmd Client Arrays
clear_arrays s = do
  key_in ← patch s.key_in 0 (replicate 128 0)
  key_out ← patch s.key_out 0 (replicate 128 0)
  pure (record s { key_in = key_in; key_out = key_out })

module _ (d : Digest) (evp : Evp) (decode_block : List ℕ → Option (List ℕ)) (sockfd : ℕ) where
  -- What follows the first `recv`.
  unfoldable pub converse : Arrays → (request : List ℕ) → List Arrival → Cmd Client (Unit {0})
  converse s request arrivals = do
    goes_on ← handshake d s.key_in s.key_out s.key_base request
    if goes_on then frames evp decode_block sockfd arrivals else pure tt

  -- With the buffer that `malloc` gave, if any, and what the first `recv` gave.
  unfoldable pub first_recv :
      Arrays → Option (List ℕ) → Option (List ℕ) → List Arrival → Cmd Client (Unit {0})
  unfolding converse
  first_recv s none first arrivals = pure tt
  first_recv s (some buffer) none arrivals = keep buffer
  first_recv s (some buffer) (some request) arrivals = do
    keep buffer
    if length (take ws_buffer_size request) == 0 then pure tt else converse s request arrivals

  unfoldable pub recv_thread :
      Arrays → Option (List ℕ) → Option (List ℕ) → List Arrival → Cmd Client (Unit {0})
  unfolding clear_arrays first_recv
  recv_thread s buffer first arrivals = do
    s' ← clear_arrays s
    first_recv s' buffer first arrivals
    close sockfd
