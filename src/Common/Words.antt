-- ===== src/Common/Words.antt =====
-- Machine words as native numbers: the wrap-around of each width, masks of low bits, and bytes in
-- little-endian order (Go's encoding/binary).
use Prim.Native.Nat.{
  ℕ, zero, suc, ◌+◌, ◌-◌, ◌*◌, ◌/◌, ◌%◌, ◌^◌, ◌≤◌, ◌<◌, max, bit_or, digits, bit_or-bitwise,
}
use mathlib.Core.Path.{◌≡◌, ap}
use mathlib.Core.List.{List, [], ◌∷◌}
use native.Mathlib.Nat.{pow-suc}
use native.Mathlib.Omega.{arith}
use udpfsd.Common.Lists.{get_or}

abbrev pub u8 : ℕ → ℕ
u8 n = n % 2 ^ 8

abbrev pub u16 : ℕ → ℕ
u16 n = n % 2 ^ 16

abbrev pub u32 : ℕ → ℕ
u32 n = n % 2 ^ 32

abbrev pub u64 : ℕ → ℕ
u64 n = n % 2 ^ 64

-- `x & (2^k - 1)`, `x << k` and `x >> k`
abbrev pub low_bits : ℕ → ℕ → ℕ
low_bits x k = x % 2 ^ k

abbrev pub shl : ℕ → ℕ → ℕ
shl x k = x * 2 ^ k

abbrev pub shr : ℕ → ℕ → ℕ
shr x k = x / 2 ^ k

-- `a - b` on uint16: `-` on ℕ stops at 0, so the modulus comes first.
abbrev pub sub16 : ℕ → ℕ → ℕ
sub16 a b = u16 (a + 2 ^ 16 - b)

-- `binary.LittleEndian`: `PutUint16`, `PutUint32`, `Uint16` and `Uint32` at an offset
abbrev pub put_u16 : ℕ → List ℕ
put_u16 v = u8 v ∷ u8 (shr v 8) ∷ []

abbrev pub put_u32 : ℕ → List ℕ
put_u32 v = u8 v ∷ u8 (shr v 8) ∷ u8 (shr v 16) ∷ u8 (shr v 24) ∷ []

abbrev pub byte_at : List ℕ → ℕ → ℕ
byte_at b i = get_or b i 0

abbrev pub get_u16 : List ℕ → ℕ → ℕ
get_u16 b i = byte_at b i + byte_at b (i + 1) * 2 ^ 8

abbrev pub get_u32 : List ℕ → ℕ → ℕ
get_u32 b i =
    byte_at b i
    + byte_at b (i + 1) * 2 ^ 8
    + byte_at b (i + 2) * 2 ^ 16
    + byte_at b (i + 3) * 2 ^ 24

-- Moved one bit further, a number is twice as large.
shl-suc : (b k : ℕ) → shl b (suc k) ≡ shl b k * 2
shl-suc b k = omega (arith, ap (λ (t : ℕ). b * t) (pow-suc 2 k))

-- The recursion on digits behind `bit_or`, where the first number lies below the bits of the second
joined :
    (fuel k low b : ℕ)
    → low ≤ fuel
    → low < 2 ^ k
    → digits (λ y. y) max fuel low (shl b k) ≡ low + shl b k
joined zero k zero b enough small = omega arith
joined zero k (suc low) b enough small = absurd (omega arith)
joined (suc fuel) k zero b enough small = omega arith
joined (suc fuel) zero (suc low) b enough small = absurd (omega arith)
joined (suc fuel) (suc k) (suc low) b enough small =
    let half : shl b (suc k) / 2 ≡ shl b k = omega (arith, shl-suc b k) in
    let rest = joined fuel k (suc low / 2) b (omega arith) (omega (arith, pow-suc 2 k)) in
    rw half (omega (arith, rest, shl-suc b k))

-- Where the bits do not meet, `|` is a sum.
pub bit_or-shl : (k a b : ℕ) → a < 2 ^ k → bit_or a (shl b k) ≡ a + shl b k
bit_or-shl k zero b h = simp bit_or-bitwise (omega arith)
bit_or-shl k (suc a) b h = simp bit_or-bitwise (joined (suc a) k (suc a) b (omega arith) h)
