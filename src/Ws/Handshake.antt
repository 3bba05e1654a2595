-- ===== src/Ws/Handshake.antt =====
-- The first half of `wsRecvThread` of ws.c: the request that opens a connection, and its answer.
pub mod Refused
pub mod FirstLine
use rf_gateway.Base.{
  ℕ, zero, suc, ◌+◌, ◌-◌, Bool, true, false, Option, none, some, List, [], ◌∷◌, ◌++◌, ltb, ◌==◌,
  if◌then◌else◌, fault, out_of_fuel, Cmd, pure, ◌>>=◌, ◌>>◌, length, get_or, take, drop, set,
  replicate, patch, slice, codes, has_text, string_at, put_string, add_string,
}
use rf_gateway.Ws.{Client, buffer, keep, write_out, ws_buffer_size}

-- What the thread takes from OpenSSL.
pub record Digest : Type 0 where
  pub sha1 : List ℕ → List ℕ
  pub encode_block : List ℕ → List ℕ

abbrev pub guid : List ℕ
guid = codes "258EAFA5-E914-47DA-95CA-C5AB0DC85B11"

abbrev pub key_header : List ℕ
key_header = codes "Sec-WebSocket-Key:"

-- How long the line at the start of `bytes` is, and whether a line feed ends it; `none` where
-- neither a line feed nor a zero does.
abbrev longer : Option (ℕ × Bool) → Option (ℕ × Bool)
longer none = none
longer (some (n, more)) = some (suc n, more)

unfoldable pub line_end : List ℕ → Option (ℕ × Bool)
line_end [] = none
line_end (c ∷ cs) =
    if c == 10 then some (0, true) else if c == 0 then some (0, false) else longer (line_end cs)

module _ {S : Type 0} where
  -- The buffer, where the line starts, and where the next one does, `none` for a null pointer.
  unfoldable pub ended : List ℕ → ℕ → Option (ℕ × Bool) → Cmd S (List ℕ × ℕ × Option ℕ)
  ended buf from none = λ _. fault
  ended buf from (some (n, false)) = pure (buf, from, none)
  ended buf from (some (n, true)) = pure (set buf (from + n) 0, from, some (from + n + 1))

  -- `tmp = strsep(&data, "\n")`. After the last line `tmp` is a null pointer, which the next call of
  -- `strstr` would read.
  unfoldable pub next_line : List ℕ → (at : Option ℕ) → Cmd S (List ℕ × ℕ × Option ℕ)
  unfolding ended line_end
  next_line buf none = λ _. fault
  next_line buf (some from) = ended buf from (line_end (drop from buf))

  -- The key of the request with the text that the protocol fixes, in `keyIn`.
  unfoldable pub copy_key : (key_in key : List ℕ) → Cmd S (List ℕ)
  unfolding string_at put_string add_string
  copy_key key_in key = do
    copied ← put_string key_in 0 key
    s ← string_at copied 0
    cut ← if length s == 0 then (λ _. fault) else patch copied (length s - 1) (0 ∷ [])
    add_string cut guid

  unfoldable pub take_key : List ℕ → (tmp : ℕ) → (key_in : List ℕ) → Cmd S (List ℕ)
  unfolding string_at copy_key
  take_key buf tmp key_in = do
    line ← string_at buf tmp
    if has_text line key_header
        then (do key ← string_at buf (tmp + 19); copy_key key_in key)
        else pure key_in

  -- The loop over the lines of the request; the result is the buffer, the last line and `keyIn`.
  unfoldable pub headers : ℕ → List ℕ → Option ℕ → List ℕ → Cmd S (List ℕ × ℕ × List ℕ)
  unfolding next_line take_key string_at
  headers zero buf at key_in = λ _. out_of_fuel
  headers (suc k) buf at key_in = do
    (buf', tmp, at') ← next_line buf at
    key_in' ← take_key buf' tmp key_in
    line ← string_at buf' tmp
    let more = headers k buf' at' key_in'
    if ltb 1 (length line) then more else pure (buf', tmp, key_in')

  -- `strcat(buffer, tmp)` for a text inside of the buffer, which must not meet its copy.
  unfoldable pub add_inner : List ℕ → (tmp : ℕ) → Cmd S (List ℕ)
  unfolding string_at put_string
  add_inner buf tmp = do
    s ← string_at buf 0
    line ← string_at buf tmp
    if ltb (length s + length line) tmp then put_string buf (length s) line else λ _. fault

-- `free(tmp)`, where only the start of the buffer is a block of `malloc`.
unfoldable pub free_inner : (tmp : ℕ) → Cmd Client (Unit {0})
free_inner tmp = if tmp == 0 then keep [] else λ _. fault

abbrev pub greeting : List ℕ
greeting =
    codes
      "HTTP/1.1 101 Switching Protocols\r\nConnection: Upgrade\r\nUpgrade: websocket\r\nSec-WebSocket-Accept: "

abbrev pub blank_line : List ℕ
blank_line = codes "\r\n\r\n"

-- The answer to a request whose lines are read. `key_out` and `key_base` are the arrays of 20 and 30
-- bytes.
unfoldable pub answer :
    Digest → (key_out key_base buf : List ℕ) → (tmp : ℕ) → (key_in : List ℕ) → Cmd Client (Unit {0})
unfolding string_at put_string add_string add_inner free_inner
answer d key_out key_base buf tmp key_in = do
  key ← string_at key_in 0
  hashed ← patch key_out 0 (d.sha1 key)
  started ← put_string buf 0 greeting
  keep started
  digest ← slice hashed 0 20
  patch key_base 0 (d.encode_block digest ++ 0 ∷ [])
  joined ← add_inner started tmp
  finished ← add_string joined blank_line
  keep finished
  text ← string_at finished 0
  write_out text
  free_inner tmp

-- The request whose first line names the method: `request` is what the first `recv` gave. The result
-- says whether the connection goes on to frames.
unfoldable pub handshake : Digest → (key_in key_out key_base request : List ℕ) → Cmd Client Bool
unfolding next_line string_at headers answer
handshake d key_in key_out key_base request = do
  let got = take ws_buffer_size request
  buf ← buffer
  filled ← patch buf 0 got
  closed ← patch filled (length got) (0 ∷ [])
  keep closed
  (buf', tmp, at) ← next_line closed (some 0)
  keep buf'
  line ← string_at buf' tmp
  if has_text line (codes "GET")
      then (do
        (buf'', tmp', key_in') ← headers (length closed + 1) buf' at key_in
        answer d key_out key_base buf'' tmp' key_in'
        pure true)
      else pure false
