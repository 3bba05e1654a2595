-- ===== src/Base/Words.antt =====
-- The fixed widths of C, and the little-endian bytes of a word.
use Prim.Native.Nat.{ℕ, ◌+◌, ◌*◌, ◌/◌, ◌%◌, ◌^◌}
use mathlib.Core.List.{List, [], ◌∷◌}
use rf_gateway.Base.Lists.{get_or}

abbrev pub u8 : ℕ → ℕ
u8 n = n % 2 ^ 8

abbrev pub u16 : ℕ → ℕ
u16 n = n % 2 ^ 16

abbrev pub u32 : ℕ → ℕ
u32 n = n % 2 ^ 32

infixl 75 ◌<<<◌ ◌>>>◌
abbrev pub ◌<<<◌ : ℕ → ℕ → ℕ
x <<< k = x * 2 ^ k

abbrev pub ◌>>>◌ : ℕ → ℕ → ℕ
x >>> k = x / 2 ^ k

-- How a `uint16_t` and a `uint32_t` lie in memory on the little-endian hosts of the program.
abbrev pub bytes16 : ℕ → List ℕ
bytes16 n = n % 256 ∷ n / 256 % 256 ∷ []

abbrev pub bytes32 : ℕ → List ℕ
bytes32 n = n % 256 ∷ n / 256 % 256 ∷ n / 65536 % 256 ∷ n / 16777216 % 256 ∷ []

-- `*(uint16_t *)(buf + off)`
abbrev pub word16 : List ℕ → ℕ → ℕ
word16 buf off = get_or buf off 0 + get_or buf (off + 1) 0 * 256

-- `*(uint32_t *)(buf + off)`
abbrev pub word32 : List ℕ → ℕ → ℕ
word32 buf off =
    get_or buf off 0
    + get_or buf (off + 1) 0 * 256
    + get_or buf (off + 2) 0 * 65536
    + get_or buf (off + 3) 0 * 16777216
