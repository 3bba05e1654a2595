-- ===== src/Checksum.antt =====
-- `crc16` and `fnv1aHash` of rf.c, over the bytes that the calls read.
pub mod Bitwise
use rf_gateway.Base.{ℕ, ◌*◌, List, [], ◌∷◌, bit_xor, u8, u16, u32, ◌<<<◌, ◌>>>◌, bytes32}

-- One round of `crc16`: `x` is a `uint8_t`, `crc` a `uint16_t`.
crc16_round : (crc byte : ℕ) → ℕ
crc16_round crc byte =
    let x = u8 (bit_xor (crc >>> 8) byte) in
    let x' = u8 (bit_xor x (x >>> 4)) in
    u16 (bit_xor (bit_xor (bit_xor (crc <<< 8) (u16 (x' <<< 12))) (u16 (x' <<< 5))) x')

crc16_loop : (crc : ℕ) → List ℕ → ℕ
unfolding crc16_round
crc16_loop crc [] = crc
crc16_loop crc (byte ∷ bytes) = crc16_loop (crc16_round crc byte) bytes

unfoldable pub crc16 : List ℕ → ℕ
unfolding crc16_loop
crc16 bytes = crc16_loop 0xffff bytes

fnv1a_loop : (hash : ℕ) → List ℕ → ℕ
fnv1a_loop hash [] = hash
fnv1a_loop hash (byte ∷ bytes) = fnv1a_loop (u32 (bit_xor hash byte * 16777619)) bytes

unfoldable pub fnv1a_hash : List ℕ → ℕ
unfolding fnv1a_loop
fnv1a_hash bytes = fnv1a_loop 2166136261 bytes

-- `fnv1aHash(&dev->sn, 4)`
abbrev pub address_of : (sn : ℕ) → ℕ
address_of sn = fnv1a_hash (bytes32 sn)
