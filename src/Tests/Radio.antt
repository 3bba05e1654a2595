-- ===== src/Tests/Radio.antt =====
-- The functions of rf.c and crypto.c with a gateway, a device in the map, and a cipher that turns a
-- block around.
use rf_gateway.Base.{
  ℕ, zero, suc, ◌+◌, ◌<◌, ◌≡◌, refl, true, none, some, List, [], ◌∷◌, arith, ok, get_or, length,
  replicate, span, splice, null, Points, write,
}
use rf_gateway.Crypto.{Evp, Coded, coded, encrypt_packet, decrypt_packet}
use rf_gateway.Crypto.Laws.{CbcBlock, decrypt_packet-encrypt_packet}
use rf_gateway.Links.{Cells, nil, cons}
use rf_gateway.HashMap.{Entries, HashMap}
use rf_gateway.HashMap.View.{Pair, orders, Chain, last, more, bucket, IsMap}
use rf_gateway.Rf.{Rf, Device, Packet, key_owner, transmit}
use rf_gateway.Rf.Receive.{crc_ok, unprotect}
use rf_gateway.Rf.Seal.{randomised}
use rf_gateway.Rf.Air.{unprotect-transmit}

-- Each block is reversed; a context carries nothing.
abbrev pub reverse_onto : List ℕ → List ℕ → List ℕ
reverse_onto [] acc = acc
reverse_onto (x ∷ xs) acc = reverse_onto xs (x ∷ acc)

abbrev pub mirror : Evp
mirror = record {
  Ctx = Unit {0};
  ctx_new = some tt;
  encrypt_init = λ c key iv. some tt;
  encrypt_update = λ c block. some (tt, reverse_onto block []);
  encrypt_final = λ c. some [];
  decrypt_init = λ c key iv. some tt;
  decrypt_update = λ c block. some (tt, reverse_onto block []);
  decrypt_final = λ c. some [];
  set_padding = λ c n. tt;
}

pub length-reverse_onto : (xs acc : List ℕ) → length (reverse_onto xs acc) ≡ length xs + length acc
length-reverse_onto [] acc = omega arith
length-reverse_onto (x ∷ xs) acc = omega (arith, length-reverse_onto xs (x ∷ acc))

pub reverse_onto_twice :
    (xs acc : List ℕ) → reverse_onto (reverse_onto xs acc) [] ≡ reverse_onto acc xs
reverse_onto_twice [] acc = refl
reverse_onto_twice (x ∷ xs) acc = reverse_onto_twice xs (x ∷ acc)

abbrev pub mirror_block : (key iv : List ℕ) → CbcBlock mirror key iv
mirror_block key iv = record {
  ctx = tt;
  enc = tt;
  dec = tt;
  made = refl;
  enc_init = refl;
  dec_init = refl;
  cipher = λ block. reverse_onto block [];
  length-cipher = λ block whole. omega (arith, length-reverse_onto block []);
  encrypts = λ block whole. (tt, refl, refl);
  decrypts = λ block whole. (tt, rw (reverse_onto_twice block []) refl, refl);
}

abbrev pub key : List ℕ
key = replicate 16 7

decrypt_packet-encrypt_packet_example :
    (c : Coded) × (encrypt_packet mirror (replicate 16 3) key key ≡ some c)
    × (c.out_len ≡ 16)
    × (decrypt_packet mirror c.out key key ≡ some (coded (replicate 16 3) 16))
decrypt_packet-encrypt_packet_example =
    decrypt_packet-encrypt_packet (mirror_block key key) (replicate 16 3) refl

-- The gateway at 200, and the device at 201, which the map has under its address.
abbrev pub gateway : Device
gateway = record { addr = 9; sn = 0x10000001; key = key; iv = key; ctr = 0; packet_queue = none }

abbrev pub meter : Device
meter = record { addr = 6; sn = 5; key = key; iv = key; ctr = 255; packet_queue = none }

abbrev entries : Entries
entries =
    write (λ a. none) 100
      (some (record { prev = null; next = null; chain = null; key = 6; value = 201 }))

abbrev map : HashMap
map = record { entries = 100 ∷ []; head = 100; tail = 100; capacity = 1; size = 1 }

abbrev pub pairs : Cells Pair
pairs = (100, (6, 201)) ∷ []

-- A read of a register of the device at 6, encrypted, with two bytes of payload; the data are for it.
abbrev pub request : List ℕ
request = 6 ∷ 0 ∷ 0 ∷ 0 ∷ 0 ∷ 0 ∷ 0 ∷ 0 ∷ 0x80 ∷ 0 ∷ 0 ∷ 2 ∷ 2 ∷ 21 ∷ 22 ∷ replicate 241 0

abbrev pub packet : Packet
packet = record { bytes = request; len = 15; origin = 0 }

abbrev pub world : Rf
world = record {
  run = true;
  sock = some 3;
  gw = 200;
  map = map;
  entries = entries;
  nodes = λ a. none;
  devices = write (write (λ a. none) 200 (some gateway)) 201 (some meter);
  packets = write (λ a. none) 300 (some packet);
  sent = [];
  closed = [];
}

pub map-IsMap : IsMap entries map pairs
unfolding orders write
map-IsMap = record {
  order = cons (record { ne_null = omega arith; holds = refl }) refl nil;
  counted = refl;
  keys = (refl, tt);
  wide = omega arith;
  width = refl;
  chains = map-Chain;
}
  where
    map-Chain : (i : ℕ) → i < 1 → Chain entries (get_or map.entries i null) (bucket 1 i pairs [])
    map-Chain zero lt =
        more
          (record {
            node = record { prev = null; next = null; chain = null; key = 6; value = 201 };
            points = record { ne_null = omega arith; holds = refl };
            next = refl;
            key = refl;
            value = refl;
          })
          last
    map-Chain (suc i) lt = absurd (omega arith)

pub gateway_at : Points world.devices 200 gateway
unfolding write
gateway_at = record { ne_null = omega arith; holds = refl }

pub meter_at : Points world.devices 201 meter
unfolding write
meter_at = record { ne_null = omega arith; holds = refl }

pub packet_at : Points world.packets 300 packet
unfolding write
packet_at = record { ne_null = omega arith; holds = refl }

-- The device reads what is sent to it.
unprotect-transmit_example :
    (frame : List ℕ) × (opened : List ℕ) × (transmit mirror (some 77) meter request world
      ≡ ok tt (record world { sent = frame ∷ [] }))
    × (length frame ≡ 25)
    × (unprotect mirror meter (splice (replicate 256 0) 0 frame) world ≡ ok opened world)
    × (crc_ok opened world ≡ ok true world)
    × (span opened 0 15 ≡ span (randomised (some 77) request) 0 15)
unfolding key_owner
unprotect-transmit_example =
    unprotect-transmit (some 77) request refl (omega arith) meter (mirror_block key key) meter meter
      world world (replicate 256 0) refl refl refl refl
