-- ===== src/Tests/Checks.antt =====
-- `crc16` of rf.c at the digits one and two.
use rf_gateway.Base.{◌≡◌, [], ◌∷◌, arith}
use rf_gateway.Checksum.{crc16}
use rf_gateway.Checksum.Bitwise.{crc_from, crc16-crc_from}

crc16-crc_from_example : crc16 (0x31 ∷ 0x32 ∷ []) ≡ crc_from 0xffff (0x31 ∷ 0x32 ∷ [])
crc16-crc_from_example = crc16-crc_from (0x31 ∷ 0x32 ∷ []) (omega arith, (omega arith, tt))
