-- ===== src/Compression/Cso.antt =====
-- internal/fs/compression/cso/cso.go: CISO images. The decompressors of compress/flate and
-- compress/zlib are parameters, none where they have an error.
pub mod Encode
pub mod Opened
pub mod RoundTrip
pub mod Reading
mod Tests
use udpfsd.Compression.Formats.{read_full, too_long, int64_at, blocks_of}
use udpfsd.Common.{
  ℕ, ◌+◌, ◌-◌, ◌*◌, ◌/◌, ◌%◌, ◌^◌, ◌==◌, ◌||◌, Bool, true, false, not, Option, none, some, List, [],
  ◌∷◌, ◌++◌, if◌then◌else◌, leb, length, take, drop, replicate, same_name, u64, shl, get_u32,
  byte_at, Outcome, ok, panic,
}

pub record Cso : Type 0 where
  pub image : List ℕ
  pub offsets : ℕ → ℕ
  pub block_size : ℕ
  pub num_blocks : ℕ
  pub size : ℕ
  pub align : ℕ

-- The bytes "CISO"
abbrev pub cso_magic : List ℕ
cso_magic = 67 ∷ 73 ∷ 83 ∷ 79 ∷ []

unfoldable pub with_table : List ℕ → ℕ → ℕ → ℕ → Option (List ℕ) → Outcome (Option Cso)
with_table image size block_size align none = ok none
with_table image size block_size align (some table) =
    if too_long (u64 (blocks_of size block_size + 1) * 4)
    then panic
    else ok (
        some (record {
          image = image;
          offsets = λ i. get_u32 table (i * 4);
          block_size = block_size;
          num_blocks = blocks_of size block_size;
          size = size;
          align = align;
        }))

unfoldable pub read_table : List ℕ → ℕ → ℕ → ℕ → Outcome (Option Cso)
read_table image size block_size align =
    let n = u64 ((blocks_of size block_size + 1) * 4) in
    if too_long n then panic else with_table image size block_size align (read_full 24 n image)

unfoldable pub read_header : List ℕ → Option (List ℕ) → Outcome (Option Cso)
read_header image none = ok none
read_header image (some b) =
    if not (same_name (take 4 b) cso_magic)
    then ok none
    else if get_u32 b 16 == 0
    then ok none
    else read_table image (int64_at b 8) (get_u32 b 16) (byte_at b 21)

-- parseHeader; none where it has an error
unfoldable pub parse_header : List ℕ → Outcome (Option Cso)
parse_header image = read_header image (read_full 0 24 image)

-- The output, filled up with zeros
unfoldable pub pad : ℕ → List ℕ → List ℕ
pad block_size out = out ++ replicate (block_size - length out) 0

-- Raw deflate first, then zlib
unfoldable pub or_else : ℕ → Option (List ℕ) → Option (List ℕ) → Option (List ℕ)
or_else block_size (some out) other = some (pad block_size out)
or_else block_size none (some out) = some (pad block_size out)
or_else block_size none none = none

module _ (inflate unzlib : List ℕ → Option (List ℕ)) where
  unfoldable pub decompress : ℕ → List ℕ → Option (List ℕ)
  decompress block_size z = or_else block_size (inflate z) (unzlib z)

  unfoldable pub decode : ℕ → Bool → Option (List ℕ) → Option (List ℕ)
  decode block_size is_plain none = none
  decode block_size true (some b) = some b
  decode block_size false (some z) = decompress block_size z

  unfoldable pub read_at : Cso → Bool → ℕ → ℕ → Outcome (Option (List ℕ))
  read_at c is_plain offset n =
      if leb (2 ^ 63) offset
      then ok none
      else if too_long n
      then panic
      else ok (decode c.block_size is_plain (read_full offset n c.image))

  -- A block, from its entry of the table and the next
  unfoldable pub read_entry : Cso → ℕ → ℕ → Outcome (Option (List ℕ))
  read_entry c raw next_raw =
      let is_plain = raw / 2 ^ 31 % 2 == 1 in
      let offset = u64 (shl (raw % 2 ^ 31) c.align) in
      let next = u64 (shl (next_raw % 2 ^ 31) c.align) in
      read_at c is_plain offset (if is_plain then c.block_size else u64 (next + 2 ^ 64 - offset))

  unfoldable pub read_block : Cso → ℕ → Outcome (Option (List ℕ))
  read_block c idx =
      if leb (2 ^ 63) c.num_blocks || leb c.num_blocks idx
      then ok none
      else read_entry c (c.offsets idx) (c.offsets (idx + 1))
