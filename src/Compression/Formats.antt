-- ===== src/Compression/Formats.antt =====
-- internal/fs/compression/cso/cso.go and zso/zso.go: what the two formats read alike. The file is its
-- bytes, of which every read within them succeeds. An int64 is its 64 bits.
use udpfsd.Common.{
  ℕ, ◌+◌, ◌-◌, ◌*◌, ◌/◌, ◌^◌, ◌==◌, Bool, Option, none, some, List, if◌then◌else◌, leb, length,
  take, drop, u64, get_u32,
}

-- io.ReadFull of `n` bytes from an offset on
unfoldable pub read_full : ℕ → ℕ → List ℕ → Option (List ℕ)
read_full offset n image =
    let b = take n (drop offset image) in if length b == n then some b else none

-- An int64 through a positive int, towards 0
unfoldable pub signed_div : ℕ → ℕ → ℕ
signed_div a d = if leb (2 ^ 63) a then u64 (2 ^ 64 - (2 ^ 64 - a) / d) else a / d

-- `make` panics at a negative length, and at one beyond the address space.
abbrev pub too_long : ℕ → Bool
too_long n = leb (2 ^ 48) n

abbrev pub int64_at : List ℕ → ℕ → ℕ
int64_at b i = get_u32 b i + get_u32 b (i + 4) * 2 ^ 32

unfoldable pub blocks_of : ℕ → ℕ → ℕ
blocks_of size block_size = signed_div (u64 (size + block_size - 1)) block_size
