-- ===== src/Compression/Reader.antt =====
-- internal/fs/compression/reader.go: NewCachedReader, getBlock, Read and Seek of CachedReader, over any
-- BlockReader (compression.go). An int64 offset is its 64 bits: from 2^63 on it is negative.
pub mod Blocks
pub mod Position
pub mod Pieces
pub mod Places
pub mod Image
pub mod Whole
use udpfsd.Common.{
  ℕ, zero, suc, ◌+◌, ◌-◌, ◌/◌, ◌%◌, ◌^◌, ◌==◌, ◌&&◌, ◌||◌, not, Bool, true, false, Option, none,
  some, List, [], ◌++◌, ltb, leb, if◌then◌else◌, u64, length, take, drop, Outcome, ok, panic, stuck,
}
use udpfsd.Compression.Cache.{BlockCache, new_block_cache, get, put}

-- The interface `BlockReader`, without Close; `read_block` is none where ReadBlock returns an error. A
-- block is the bytes of its slice up to the capacity, which a slice expression can reach.
pub record BlockReader : Type 0 where
  pub block_size : ℕ
  pub num_blocks : ℕ
  pub uncompressed_size : ℕ
  pub read_block : ℕ → Option (List ℕ)

pub record CachedReader : Type 0 where
  pub source : BlockReader
  pub cache : BlockCache
  pub block_size : ℕ
  pub num_blocks : ℕ
  pub size : ℕ
  pub pos : ℕ

-- `cache_size` is 0 where the int is not positive.
unfoldable pub new_cached_reader : BlockReader → ℕ → CachedReader
new_cached_reader br cache_size = record {
  source = br;
  cache = new_block_cache (if cache_size == 0 then 32 else cache_size);
  block_size = br.block_size;
  num_blocks = br.num_blocks;
  size = br.uncompressed_size;
  pos = 0;
}

-- Where the cache does not have the block
unfoldable pub fetch_block : ℕ → CachedReader → Option (List ℕ) × CachedReader
fetch_block idx c = elim (c.source.read_block idx) [
  | none ↦ (none, c)
  | some b ↦ (some b, record c { cache = put idx b c.cache })
]

unfoldable pub get_block : ℕ → CachedReader → Option (List ℕ) × CachedReader
get_block idx c =
    let found = get idx c.cache in
    let c1 = record c { cache = found.1 } in
    elim found.0 [ none ↦ fetch_block idx c1 | some b ↦ (some b, c1) ]

-- The base that `whence` names: the start, the position or the end; none is an error.
unfoldable pub seek_base : ℕ → CachedReader → Option ℕ
seek_base whence c =
    if whence == 0
    then some 0
    else if whence == 1
    then some c.pos
    else if whence == 2
    then some c.size
    else none

-- An int64 is not above another.
unfoldable pub signed_leb : ℕ → ℕ → Bool
signed_leb a b =
    if leb (2 ^ 63) a then not (leb (2 ^ 63) b) || leb a b else not (leb (2 ^ 63) b) && leb a b

-- The position is kept between 0 and the size; a negative size is the position.
unfoldable pub clamp : ℕ → ℕ → ℕ
clamp size p =
    let at_least = if leb (2 ^ 63) p then 0 else p in
    if leb (2 ^ 63) size || ltb size at_least then size else at_least

-- The new position and whether there was an error
unfoldable pub seek : ℕ → ℕ → CachedReader → Bool × CachedReader
seek offset whence c = elim (seek_base whence c) [
  | none ↦ (true, c)
  | some base ↦ (false, record c { pos = clamp c.size (u64 (base + offset)) })
]

-- The bytes that `Read` stored, with no error, io.EOF or the error of ReadBlock
pub data ReadError : Type 0 where
  no_error end_of_file failed : ReadError

pub record ReadResult : Type 0 where
  pub bytes : List ℕ
  pub error : ReadError

-- `lastBlockSize`
unfoldable pub block_length : ℕ → CachedReader → ℕ
block_length idx c =
    if (idx + 1 == c.num_blocks) && not (c.size % c.block_size == 0)
    then c.size % c.block_size
    else c.block_size

abbrev pub Loop : Type 0
Loop = ℕ → List ℕ → CachedReader → Outcome (ReadResult × CachedReader)

-- The end of a round, with the block: `n` bytes are wanted, of which the block gives `count`.
unfoldable pub copy_block :
    ℕ → ℕ → ℕ → List ℕ → Option (List ℕ) × CachedReader → Loop → Outcome (ReadResult × CachedReader)
copy_block n count offset read (none, c) loop = ok (record { bytes = read; error = failed }, c)
copy_block n count offset read (some block, c) loop =
    if ltb (length block) (offset + count)
    then panic
    else loop (n - count) (read ++ take count (drop offset block))
        (record c { pos = c.pos + count })

-- A round of the loop of `Read`
unfoldable pub read_round : ℕ → List ℕ → CachedReader → Loop → Outcome (ReadResult × CachedReader)
read_round n read c loop =
    if (n == 0) || signed_leb c.size c.pos
    then ok (record { bytes = read; error = no_error }, c)
    else if c.block_size == 0
    then panic
    else let idx = c.pos / c.block_size in
      let offset = c.pos % c.block_size in
      let avail = block_length idx c - offset in
      if avail == 0
      then ok (record { bytes = read; error = no_error }, c)
      else copy_block n (if ltb avail n then avail else n) offset read (get_block idx c) loop

-- Each round reads a byte at least, so one round more than there are bytes to read is enough.
unfoldable pub read_loop : ℕ → Loop
read_loop zero n read c = stuck
read_loop (suc fuel) n read c = read_round n read c (read_loop fuel)

-- `Read` of a buffer of `n` bytes
unfoldable pub read : ℕ → CachedReader → Outcome (ReadResult × CachedReader)
read n c =
    if signed_leb c.size c.pos
    then ok (record { bytes = []; error = end_of_file }, c)
    else let most = if ltb (c.size - c.pos) n then c.size - c.pos else n in
      read_loop (most + 1) most [] c
