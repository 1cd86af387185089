-- ===== src/Compression/Tests.antt =====
-- Runs of the cache of internal/fs/compression, and the theorems at concrete values.
use udpfsd.Common.{
  ℕ, zero, suc, ◌+◌, ◌-◌, ◌*◌, ◌^◌, ◌≤◌, ◌<◌, ◌≡◌, refl, arith, min, List, [], ◌∷◌, ◌++◌, take,
  drop, Returns, none, some, ltb, if◌then◌else◌,
}
use udpfsd.Compression.Cache.{
  BlockCache, new_block_cache, look_up, get, put, evict, delete, move_to_end, without, contains,
}
use udpfsd.Compression.Cache.Order.{IsCache}
use udpfsd.Compression.Cache.Eviction.{empty-IsOrder, put-IsCache}
use udpfsd.Compression.Reader.{BlockReader, new_cached_reader, get_block, seek, read}
use udpfsd.Compression.Reader.Image.{IsAt, Gives}
use udpfsd.Compression.Reader.Whole.{read-Gives}
use udpfsd.Compression.Reader.Blocks.{new_cached_reader-IsReader, Reads, get_block-Reads}
use udpfsd.Compression.Reader.Position.{seek_current, seek-within}

-- Three blocks of two bytes each
abbrev image : BlockReader
image = record {
  block_size = 2;
  num_blocks = 3;
  uncompressed_size = 6;
  read_block = λ k. if ltb k 3 then some (k ∷ k ∷ []) else none;
}

get_block-Reads_example :
    Reads 1 (new_cached_reader image 2) (get_block 1 (new_cached_reader image 2))
get_block-Reads_example =
    get_block-Reads 1 (new_cached_reader image 2) (new_cached_reader-IsReader image 2)

abbrev small_cache : BlockCache
small_cache = new_block_cache 2

small_cache-IsCache : IsCache small_cache
unfolding new_block_cache
small_cache-IsCache = record { order = empty-IsOrder; bounded = omega arith; room = omega arith }

put-IsCache_example : IsCache (put 7 (1 ∷ []) small_cache)
unfolding new_block_cache look_up
put-IsCache_example = put-IsCache 7 (1 ∷ []) small_cache small_cache-IsCache refl

-- Of three blocks the one that was used least lately is gone: 7 was looked up after 8 was put.
evict_test :
    (put 9 (3 ∷ []) (get 7 (put 8 (2 ∷ []) (put 7 (1 ∷ []) small_cache))).1).order ≡ 7 ∷ 9 ∷ []
unfolding new_block_cache put evict delete get look_up move_to_end contains without
evict_test = refl

seek_current_example :
    ((seek 4 1 (new_cached_reader image 2)).1.pos
      ≡ min ((new_cached_reader image 2).pos + 4) (new_cached_reader image 2).size)
    × ((seek (2 ^ 64 - 4) 1 (new_cached_reader image 2)).1.pos
        ≡ (new_cached_reader image 2).pos - 4)
unfolding new_cached_reader
seek_current_example =
    seek_current 4 (new_cached_reader image 2) (omega arith) (omega arith) (omega arith)

seek-within_example :
    (seek 9 2 (new_cached_reader image 2)).1.pos ≤ (new_cached_reader image 2).size
unfolding new_cached_reader
seek-within_example = seek-within 9 2 (new_cached_reader image 2) (omega arith)

abbrev image_bytes : List ℕ
image_bytes = 0 ∷ 0 ∷ 1 ∷ 1 ∷ 2 ∷ 2 ∷ []

image_blocks :
    (k : ℕ)
    → k * 2 < 6
    → (pad : List ℕ) × (image.read_block k ≡ some (take 2 (drop (k * 2) image_bytes) ++ pad))
image_blocks zero h = ([], refl)
image_blocks (suc zero) h = ([], refl)
image_blocks (suc (suc zero)) h = ([], refl)
image_blocks (suc (suc (suc k))) h = absurd (omega arith)

image-IsAt : IsAt image_bytes 0 (new_cached_reader image 2)
unfolding new_cached_reader
image-IsAt = record {
  reader = new_cached_reader-IsReader image 2;
  is_image = record {
    positive = omega arith;
    size = refl;
    fits = omega arith;
    count = omega arith;
    blocks = image_blocks;
  };
  position = refl;
}

read-Gives_example :
    Returns
      (Gives image_bytes
        (take 5 (drop (new_cached_reader image 2).pos image_bytes))
        (min ((new_cached_reader image 2).pos + 5) (new_cached_reader image 2).size))
      (read 5 (new_cached_reader image 2))
unfolding new_cached_reader
read-Gives_example = read-Gives image_bytes 5 (new_cached_reader image 2) image-IsAt (omega arith)
