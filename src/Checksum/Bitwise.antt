-- ===== src/Checksum/Bitwise.antt =====
-- `crc16` of rf.c is the CRC of the polynomial 0x1021 from 0xffff, taken bit by bit.
use rf_gateway.Base.{
  ℕ, zero, suc, ◌+◌, ◌*◌, ◌/◌, ◌%◌, ◌^◌, ◌<◌, ◌≡◌, refl, sym, ap, ◌∙◌, Bool-cases, inl, inr, List,
  [], ◌∷◌, arith, ltb, ◌==◌, ==_iff, if◌then◌else◌, true, u8, u16, ◌<<<◌, ◌>>>◌, bit_xor,
  bit_xor_halves, bit_xor_comm, bit_xor_assoc, bit_xor_swap, bit_xor-zero, zero-bit_xor,
  bit_xor_fields, bit_xor-lt, passes, passes_below,
}
use rf_gateway.Checksum.{crc16, crc16_loop, crc16_round}

-- One bit: the register moves up, and the polynomial is added if a bit falls out.
unfoldable pub shift : ℕ → ℕ
shift c = if ltb c 0x8000 then c * 2 else bit_xor (c * 2 % 65536) 0x1021

unfoldable pub shifts : ℕ → ℕ → ℕ
unfolding shift
shifts zero c = c
shifts (suc n) c = shifts n (shift c)

-- The reference: each byte is added at the high end, and eight bits are taken.
unfoldable pub crc_from : ℕ → List ℕ → ℕ
unfolding shifts
crc_from crc [] = crc
crc_from crc (byte ∷ bytes) = crc_from (shifts 8 (bit_xor crc (byte * 256))) bytes

abbrev pub AllBytes : List ℕ → Type 0
AllBytes [] = Unit {0}
AllBytes (b ∷ bs) = (b < 256) × AllBytes bs

shift-parts : (c : ℕ) → c < 65536 → shift c ≡ bit_xor (c % 32768 * 2) (c / 32768 * 0x1021)
unfolding shift
shift-parts c h = elim (Bool-cases (ltb c 0x8000)) [
  | inl low ↦
      let small : c < 32768 = ground arith in
      let q : c / 32768 ≡ 0 = omega arith in
      let r : c % 32768 ≡ c = omega arith in rw (low, q, r) (sym (bit_xor-zero (c * 2)))
  | inr high ↦
      let large : 32768 < suc c = ground arith in
      let q : c / 32768 ≡ 1 = omega arith in
      let r : c * 2 % 65536 ≡ c % 32768 * 2 = omega arith in rw (high, q, r) refl
]

poly : (a b : ℕ) → a < 2 → b < 2 → bit_xor (a * 0x1021) (b * 0x1021) ≡ bit_xor a b * 0x1021
poly zero zero p q = refl
poly zero (suc zero) p q = refl
poly (suc zero) zero p q = refl
poly (suc zero) (suc zero) p q = refl
poly (suc (suc a)) b p q = absurd (omega arith)
poly zero (suc (suc b)) p q = absurd (omega arith)
poly (suc zero) (suc (suc b)) p q = absurd (omega arith)

double : (a b : ℕ) → bit_xor (a * 2) (b * 2) ≡ bit_xor a b * 2
double a b =
    let ha : a * 2 / 2 ≡ a = omega arith in
    let hb : b * 2 / 2 ≡ b = omega arith in
    bit_xor_halves (a * 2) (b * 2) ∙ rw (ha, hb) (omega arith)

-- Shifting respects the exclusive or.
shift-xor : (a b : ℕ) → a < 65536 → b < 65536 → shift (bit_xor a b) ≡ bit_xor (shift a) (shift b)
shift-xor a b la lb =
    let ea : a / 32768 * 2 ^ 15 + a % 32768 ≡ a = omega arith in
    let eb : b / 32768 * 2 ^ 15 + b % 32768 ≡ b = omega arith in
    let parts =
      ap (λ n. bit_xor n b) (sym ea)
      ∙ ap (bit_xor (a / 32768 * 2 ^ 15 + a % 32768)) (sym eb)
      ∙ bit_xor_fields 15 (a / 32768) (a % 32768) (b / 32768) (b % 32768) (omega arith)
          (omega arith) in
    let low : bit_xor (a % 32768) (b % 32768) < 2 ^ 15 =
      bit_xor-lt 15 (a % 32768) (b % 32768) (omega arith) (omega arith) in
    let q : bit_xor a b / 32768 ≡ bit_xor (a / 32768) (b / 32768) = omega (arith, parts, low) in
    let r : bit_xor a b % 32768 ≡ bit_xor (a % 32768) (b % 32768) = omega (arith, parts, low) in
    shift-parts (bit_xor a b) (bit_xor-lt 16 a b la lb)
    ∙ rw
        (
          q,
          r,
          ← double (a % 32768) (b % 32768),
          ← poly (a / 32768) (b / 32768) (omega arith) (omega arith),
        )
        (bit_xor_swap (a % 32768 * 2) (b % 32768 * 2) (a / 32768 * 0x1021) (b / 32768 * 0x1021))
    ∙ sym (ap (λ n. bit_xor n (shift b)) (shift-parts a la) ∙ ap (bit_xor _) (shift-parts b lb))

shift-lt : (c : ℕ) → c < 65536 → shift c < 65536
shift-lt c h =
    rw (shift-parts c h)
      (bit_xor-lt 16 (c % 32768 * 2) (c / 32768 * 0x1021) (omega arith) (omega arith))

shifts-lt : (n c : ℕ) → c < 65536 → shifts n c < 65536
unfolding shifts
shifts-lt zero c h = h
shifts-lt (suc n) c h = shifts-lt n (shift c) (shift-lt c h)

shifts-xor :
    (n a b : ℕ) → a < 65536 → b < 65536 → shifts n (bit_xor a b) ≡ bit_xor (shifts n a) (shifts n b)
unfolding shifts
shifts-xor zero a b la lb = refl
shifts-xor (suc n) a b la lb =
    ap (shifts n) (shift-xor a b la lb)
    ∙ shifts-xor n (shift a) (shift b) (shift-lt a la) (shift-lt b lb)

-- What the code adds for the high byte of the register.
abbrev folded : ℕ → ℕ
folded x = let y = u8 (bit_xor x (x >>> 4)) in bit_xor (bit_xor (u16 (y <<< 12)) (u16 (y <<< 5))) y

high_table : passes 0 256 (λ x. shifts 8 (x * 256) == folded x) ≡ true
unfolding shifts shift
high_table = refl

low_table : passes 0 256 (λ x. shifts 8 x == x * 256) ≡ true
unfolding shifts shift
low_table = refl

-- A high and a low part that do not meet.
xor-sum : (k q r : ℕ) → r < 2 ^ k → bit_xor (q * 2 ^ k) r ≡ q * 2 ^ k + r
xor-sum k q r low =
    let high : q * 2 ^ k ≡ q * 2 ^ k + 0 = omega arith in
    let alone : r ≡ 0 * 2 ^ k + r = omega arith in
    ap (λ n. bit_xor n r) high
    ∙ ap (bit_xor (q * 2 ^ k + 0)) alone
    ∙ bit_xor_fields k q 0 0 r (omega arith) low
    ∙ rw (bit_xor-zero q, zero-bit_xor r) refl

module _ (crc byte : ℕ) (word : crc < 65536) (small : byte < 256) where
  abbrev top : ℕ
  top = bit_xor (crc / 256) byte

  top-lt : bit_xor (crc / 256) byte < 256
  top-lt = bit_xor-lt 8 (crc / 256) byte (omega arith) small

  folded-lt : folded (bit_xor (crc / 256) byte) < 65536
  folded-lt =
      let y = u8 (bit_xor top (top >>> 4)) in
      bit_xor-lt 16 (bit_xor (u16 (y <<< 12)) (u16 (y <<< 5))) y
        (bit_xor-lt 16 (u16 (y <<< 12)) (u16 (y <<< 5)) (omega arith) (omega arith)) (omega arith)

  -- The round of the code leaves the low byte moved up, with the table's value for the high byte.
  crc16_round-folded :
      crc16_round crc byte ≡ bit_xor (crc % 256 * 256) (folded (bit_xor (crc / 256) byte))
  unfolding crc16_round
  crc16_round-folded =
      let y = u8 (bit_xor top (top >>> 4)) in
      let a = u16 (y <<< 12) in
      let b = u16 (y <<< 5) in
      let t = bit_xor (bit_xor a b) y in
      let in_byte : top % 256 ≡ top = omega (arith, top-lt) in
      let c : crc * 256 ≡ crc / 256 * 2 ^ 16 + crc % 256 * 256 = omega arith in
      let grouped : bit_xor (bit_xor (bit_xor (crc * 256) a) b) y ≡ bit_xor (crc * 256) t =
        ap (λ n. bit_xor n y) (bit_xor_assoc (crc * 256) a b)
        ∙ bit_xor_assoc (crc * 256) (bit_xor a b) y in
      let alone : t ≡ 0 * 2 ^ 16 + t = omega arith in
      let split : bit_xor (crc * 256) t
          ≡ bit_xor (crc / 256) 0 * 2 ^ 16 + bit_xor (crc % 256 * 256) t =
        ap (λ n. bit_xor n t) c
        ∙ ap (bit_xor (crc / 256 * 2 ^ 16 + crc % 256 * 256)) alone
        ∙ bit_xor_fields 16 (crc / 256) (crc % 256 * 256) 0 t (omega arith) folded-lt in
      let low : bit_xor (crc % 256 * 256) t < 2 ^ 16 =
        bit_xor-lt 16 (crc % 256 * 256) t (omega arith) folded-lt in
      rw (in_byte, grouped, split) (omega (arith, low))

  -- So do eight bits of the reference.
  shifts-folded :
      shifts 8 (bit_xor crc (byte * 256))
      ≡ bit_xor (crc % 256 * 256) (folded (bit_xor (crc / 256) byte))
  shifts-folded =
      let e : crc / 256 * 2 ^ 8 + crc % 256 ≡ crc = omega arith in
      let b : byte * 2 ^ 8 + 0 ≡ byte * 256 = omega arith in
      let added : bit_xor crc (byte * 256) ≡ bit_xor (top * 256) (crc % 256) =
        ap (λ n. bit_xor n (byte * 256)) (sym e)
        ∙ ap (bit_xor (crc / 256 * 2 ^ 8 + crc % 256)) (sym b)
        ∙ bit_xor_fields 8 (crc / 256) (crc % 256) byte 0 (omega arith) (omega arith)
        ∙ ap (λ n. top * 256 + n) (bit_xor-zero (crc % 256))
        ∙ sym (xor-sum 8 top (crc % 256) (omega arith)) in
      ap (shifts 8) added
      ∙ shifts-xor 8 (top * 256) (crc % 256) (omega (arith, top-lt)) (omega arith)
      ∙ ap (λ n. bit_xor n (shifts 8 (crc % 256)))
          ((==_iff _ _).0
            (passes_below 256 (λ x. shifts 8 (x * 256) == folded x) high_table top top-lt))
      ∙ ap (bit_xor (folded top)) (
          (==_iff _ _).0
            (passes_below 256 (λ x. shifts 8 x == x * 256) low_table (crc % 256) (omega arith)))
      ∙ bit_xor_comm (folded top) (crc % 256 * 256)

crc16_round-word : (crc byte : ℕ) → crc16_round crc byte < 65536
unfolding crc16_round
crc16_round-word crc byte = omega arith

crc16_loop-crc_from :
    (crc : ℕ) (bytes : List ℕ)
    → crc < 65536
    → AllBytes bytes
    → crc16_loop crc bytes ≡ crc_from crc bytes
unfolding crc16_loop crc_from
crc16_loop-crc_from crc [] word all = refl
crc16_loop-crc_from crc (byte ∷ bytes) word (small, all) =
    crc16_loop-crc_from (crc16_round crc byte) bytes (crc16_round-word crc byte) all
    ∙ ap (λ n. crc_from n bytes)
        (crc16_round-folded crc byte word small ∙ sym (shifts-folded crc byte word small))

-- The table-free `crc16` of the code, on bytes, is the CRC of the polynomial 0x1021 with the register
-- at 0xffff, each byte added at the high end and shifted out bit by bit.
pub crc16-crc_from : (bytes : List ℕ) → AllBytes bytes → crc16 bytes ≡ crc_from 0xffff bytes
unfolding crc16
crc16-crc_from bytes all = crc16_loop-crc_from 0xffff bytes (omega arith) all

crc16_loop-word : (crc : ℕ) (bytes : List ℕ) → crc < 65536 → crc16_loop crc bytes < 65536
unfolding crc16_loop
crc16_loop-word crc [] lt = lt
crc16_loop-word crc (byte ∷ bytes) lt =
    crc16_loop-word (crc16_round crc byte) bytes (crc16_round-word crc byte)

-- The result is a `uint16_t`.
pub crc16-word : (bytes : List ℕ) → crc16 bytes < 65536
unfolding crc16
crc16-word bytes = crc16_loop-word 0xffff bytes (omega arith)
