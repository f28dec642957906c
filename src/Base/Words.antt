-- ===== src/Base/Words.antt =====
-- Machine words as native numbers, with the wrap-around written out, and the byte order of the
-- x86 hosts that the module runs on (`dysco_rdtsc` is x86 assembly): a 32-bit load takes the
-- first byte as the lowest, and `htonl` swaps the bytes.
use Prim.Native.Nat.{ℕ, ◌+◌, ◌-◌, ◌*◌, ◌/◌, ◌%◌, ◌<◌}
use mathlib.Core.Path.{◌≡◌}
use native.Mathlib.Omega.{arith}

abbrev pub u16 : ℕ → ℕ
u16 n = n % 65536

abbrev pub u32 : ℕ → ℕ
u32 n = n % 4294967296

abbrev pub add32 : ℕ → ℕ → ℕ
add32 a b = (a + b) % 4294967296

-- `-` on ℕ stops at 0, so the modulus is added first.
abbrev pub sub32 : ℕ → ℕ → ℕ
sub32 a b = (a + 4294967296 - b) % 4294967296

abbrev pub not16 : ℕ → ℕ
not16 a = 65535 - a

abbrev pub not32 : ℕ → ℕ
not32 a = 4294967295 - a

unfoldable pub swap32 : ℕ → ℕ
swap32 x = x % 256 * 16777216 + x / 256 % 256 * 65536 + x / 65536 % 256 * 256 + x / 16777216 % 256

unfoldable pub swap16 : ℕ → ℕ
swap16 x = x % 256 * 256 + x / 256 % 256

abbrev pub htonl : ℕ → ℕ
htonl x = swap32 x

abbrev pub ntohl : ℕ → ℕ
ntohl x = swap32 x

abbrev pub htons : ℕ → ℕ
htons x = swap16 x

abbrev pub ntohs : ℕ → ℕ
ntohs x = swap16 x

-- The 32-bit word that four bytes of memory hold.
abbrev pub word32 : ℕ → ℕ → ℕ → ℕ → ℕ
word32 b0 b1 b2 b3 = b0 + b1 * 256 + b2 * 65536 + b3 * 16777216

pub swap32-lt : (x : ℕ) → swap32 x < 4294967296
unfolding swap32
swap32-lt x = omega arith

pub swap16-lt : (x : ℕ) → swap16 x < 65536
unfolding swap16
swap16-lt x = omega arith

pub swap32-swap32 : (x : ℕ) → x < 4294967296 → swap32 (swap32 x) ≡ x
unfolding swap32
swap32-swap32 x h = omega arith

pub swap16-swap16 : (x : ℕ) → x < 65536 → swap16 (swap16 x) ≡ x
unfolding swap16
swap16-swap16 x h = omega arith
