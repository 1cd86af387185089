-- ===== src/Compression/Zso.antt =====
-- internal/fs/compression/zso/zso.go: ZSO and ZISO images. The decompressor of the LZ4 package takes
-- the size of the output and the input, and is a parameter, none where it has an error.
pub mod Longest
mod Tests
use udpfsd.Compression.Formats.{read_full, too_long, int64_at, blocks_of}
use udpfsd.Common.{
  ℕ, zero, suc, ◌+◌, ◌-◌, ◌*◌, ◌/◌, ◌%◌, ◌^◌, ◌==◌, ◌||◌, Bool, true, false, not, Option, none,
  some, List, [], ◌∷◌, ◌++◌, if◌then◌else◌, leb, ltb, length, take, replicate, same_name, u32, u64,
  shl, get_u32, byte_at, Outcome, ok, panic,
}

pub record Zso : Type 0 where
  pub image : List ℕ
  pub offsets : ℕ → ℕ
  pub block_size : ℕ
  pub num_blocks : ℕ
  pub size : ℕ
  pub align : ℕ
  pub ziso : Bool

-- The bytes "ZSO" and 0
abbrev pub zso_magic : List ℕ
zso_magic = 90 ∷ 83 ∷ 79 ∷ 0 ∷ []

-- The bytes "ZISO"
abbrev pub ziso_magic : List ℕ
ziso_magic = 90 ∷ 73 ∷ 83 ∷ 79 ∷ []

-- numOffsetEntries
unfoldable pub num_entries : Bool → ℕ → ℕ
num_entries ziso blocks = if ziso then u64 (blocks + 1) else blocks

unfoldable pub with_entries : List ℕ → Bool → ℕ → ℕ → ℕ → Option (List ℕ) → Outcome (Option Zso)
with_entries image ziso size block_size align none = ok none
with_entries image ziso size block_size align (some table) =
    if too_long (num_entries ziso (blocks_of size block_size) * 4)
    then panic
    else ok (
        some (record {
          image = image;
          offsets = λ i. get_u32 table (i * 4);
          block_size = block_size;
          num_blocks = blocks_of size block_size;
          size = size;
          align = align;
          ziso = ziso;
        }))

unfoldable pub read_entries : List ℕ → Bool → ℕ → ℕ → ℕ → ℕ → Outcome (Option Zso)
read_entries image ziso header_size size block_size align =
    let n = u64 (num_entries ziso (blocks_of size block_size) * 4) in
    if too_long n
    then panic
    else with_entries image ziso size block_size align (read_full header_size n image)

unfoldable pub read_fields : List ℕ → Option (List ℕ) → Outcome (Option Zso)
read_fields image none = ok none
read_fields image (some b) =
    let ziso = same_name (take 4 b) ziso_magic in
    if not (ziso || same_name (take 4 b) zso_magic)
    then ok none
    else if get_u32 b 16 == 0
    then ok none
    else read_entries image ziso (get_u32 b 4) (int64_at b 8) (get_u32 b 16)
        (if ziso then byte_at b 21 else 0)

-- parseHeader; none where it has an error
unfoldable pub parse_zso : List ℕ → Outcome (Option Zso)
parse_zso image = read_fields image (read_full 0 24 image)

-- `copy` into a block of zeros
unfoldable pub copy_into : ℕ → List ℕ → List ℕ
copy_into n bytes = take n bytes ++ replicate (n - length bytes) 0

-- The place of a block and its size, from its entry
unfoldable pub block_place : Zso → ℕ → ℕ → ℕ × ℕ
block_place z idx raw =
    if z.ziso
    then (let offset = u64 (shl (raw % 2 ^ 31) z.align) in
        let next = u64 (shl (z.offsets (idx + 1) % 2 ^ 31) z.align) in
        (offset, u64 (next + 2 ^ 64 - offset)))
    else if ltb (idx + 1) z.num_blocks
    then (raw, u32 (z.offsets (idx + 1) + 2 ^ 32 - raw))
    else (raw, u64 (length z.image + 2 ^ 64 - raw))

-- A result of the decompressor is returned, an error goes on.
abbrev pub first_found : Option (List ℕ) → Option (List ℕ) → Option (List ℕ)
first_found (some out) rest = some out
first_found none rest = rest

module _ (uncompress : ℕ → List ℕ → Option (List ℕ)) where
  -- The loop over inputs that are cut by a byte, of which the first has `n`
  unfoldable pub retry : ℕ → ℕ → List ℕ → Option (List ℕ)
  retry block_size zero bytes = none
  retry block_size (suc n) bytes =
      let rest = retry block_size n (take n bytes) in first_found (uncompress block_size bytes) rest

  unfoldable pub decode_block : ℕ → Bool → Option (List ℕ) → Option (List ℕ)
  decode_block block_size uncompressed none = none
  decode_block block_size true (some bytes) = some (copy_into block_size bytes)
  decode_block block_size false (some bytes) = retry block_size (length bytes) bytes

  unfoldable pub read_place : Zso → Bool → ℕ × ℕ → Outcome (Option (List ℕ))
  read_place z uncompressed (offset, n) =
      if leb (2 ^ 63) offset
      then ok none
      else if too_long n
      then panic
      else ok (decode_block z.block_size uncompressed (read_full offset n z.image))

  unfoldable pub read_zso_block : Zso → ℕ → Outcome (Option (List ℕ))
  read_zso_block z idx =
      if leb (2 ^ 63) z.num_blocks || leb z.num_blocks idx
      then ok none
      else read_place z (z.offsets idx / 2 ^ 31 % 2 == 1) (block_place z idx (z.offsets idx))
