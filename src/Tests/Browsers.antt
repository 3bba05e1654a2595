-- ===== src/Tests/Browsers.antt =====
-- The connection of a browser in the world of one device.
use rf_gateway.Base.{
  pure, ◌>>◌, none, fault, ℕ, ◌≡◌, refl, true, some, List, [], ◌∷◌, ◌++◌, arith, get_or, replicate,
  word32, splice, codes, has_text, starts_with, Returns,
}
use rf_gateway.Ws.{Client, in_rf}
use rf_gateway.Ws.Handshake.{Digest, handshake}
use rf_gateway.Ws.Handshake.FirstLine.{handshake-has_text}
use rf_gateway.Ws.Frame.{Arrival, accepted, frame_round, reply}
use rf_gateway.Ws.Frame.Mask.{browser_frame, frame_head, masked_from}
use rf_gateway.Ws.Frame.Handled.{server_frame}
use rf_gateway.Udp.{listen_round}
use rf_gateway.Ws.Frame.Carried.{left_over}
use rf_gateway.Ws.Frame.Routes.{frame_round-listen_round}
use rf_gateway.Ws.Frame.Overrun.{frame_round-fault}
use rf_gateway.Ws.Frame.Known.{packed, sent_to, frame_round-known}
use rf_gateway.Tests.Radio.{
  mirror, mirror_block, key, gateway, meter, world, pairs, map-IsMap, gateway_at, meter_at,
}

-- The text is its own decoding.
abbrev text : List ℕ
text = 6 ∷ 0 ∷ 0 ∷ 0 ∷ 0 ∷ 0 ∷ 0 ∷ 0 ∷ 0x80 ∷ 0 ∷ 0 ∷ 2 ∷ 2 ∷ 21 ∷ 22 ∷ []

abbrev mask : List ℕ
mask = 0x37 ∷ 0xfa ∷ 0x21 ∷ 0x3d ∷ []

abbrev client : Client
client = record { rf = world; buffer = replicate 300 0; written = []; closed = [] }

abbrev arrival : Arrival
arrival = record {
  first = some (frame_head 0x81 text ++ (mask ++ masked_from mask 0 text));
  chunks = [];
  data_room = true;
  base_room = true;
  fresh = 301;
  rand = some 77;
  stack = replicate 256 0;
}

for_meter : word32 (packed 4 text).bytes 0 ≡ 6
unfolding splice
for_meter = refl

two_bytes : get_or (packed 4 text).bytes 12 0 ≡ 2
unfolding splice
two_bytes = refl

frame_round-known_example :
    Returns
      (λ goes_on c'.
        (goes_on ≡ true)
        × (c'.rf ≡ sent_to (mirror_block key key) arrival world gateway meter (packed 4 text) pairs)
        × (c'.written ≡ server_frame accepted ∷ []))
      (frame_round mirror (λ t. some t) 4 arrival client)
frame_round-known_example =
    frame_round-known mirror arrival 4 text world gateway meter gateway_at map-IsMap
      (rw for_meter meter_at) (rw for_meter (omega arith)) refl (omega arith) (omega arith)
      (omega (arith, two_bytes)) (mirror_block key key) (omega arith) (λ t. some t) 0x81 mask text
      (mask ++ masked_from mask 0 text) [] client refl refl refl refl refl
      (omega arith, omega arith, tt) (λ _. refl) (omega arith) (omega arith) (omega arith)
      (omega arith) (omega arith) refl refl refl (omega arith)

abbrev digest : Digest
digest = record { sha1 = λ key. replicate 20 1; encode_block = λ bytes. replicate 28 65 }

-- A request as browsers send it, behind its first line.
abbrev request_line : List ℕ
request_line = codes "GET / HTTP/1.1\r"

abbrev request_rest : List ℕ
request_rest = codes "Sec-WebSocket-Key: dGhlIHNhbXBsZQ==\r\n\r\n"

abbrev waiting : Client
waiting = record client { buffer = replicate 300 0 }

handshake-has_text_example :
    handshake digest
      (replicate 128 0)
      (replicate 20 0)
      (replicate 30 0)
      (request_line ++ 10 ∷ request_rest)
      waiting
    ≡ fault
unfolding has_text starts_with
handshake-has_text_example =
    handshake-has_text request_line request_rest digest (replicate 128 0) (replicate 20 0)
      (replicate 30 0) waiting refl (omega arith) (omega arith)

frame_round-fault_example : frame_round mirror (λ t. none) 4 arrival client ≡ fault
frame_round-fault_example =
    frame_round-fault mirror arrival 4 (omega arith) (λ t. none) 0x81 mask text
      (mask ++ masked_from mask 0 text) [] client refl refl refl refl (omega arith, omega arith, tt)
      (λ _. refl) (omega arith) (omega arith) (omega arith) (omega arith) refl refl (omega arith)
      (λ base e. cc)

frame_round-listen_round_example :
    frame_round mirror (λ t. some t) 4 arrival client
    ≡ (in_rf (listen_round mirror (some 77) (replicate 256 0) 4 301 (some text))
          >> reply accepted
          >> pure true)
        (record client {
          buffer =
              browser_frame 0x81 mask text
              ++ left_over 0x81 text (mask ++ masked_from mask 0 text) [] client;
        })
frame_round-listen_round_example =
    frame_round-listen_round mirror arrival 4 text (omega arith) (omega arith) (λ t. some t) 0x81
      mask text (mask ++ masked_from mask 0 text) [] client refl refl refl refl
      (omega arith, omega arith, tt) (λ _. refl) (omega arith) (omega arith) (omega arith)
      (omega arith) refl refl (omega arith) refl (omega arith)
