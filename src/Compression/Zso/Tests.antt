-- ===== src/Compression/Zso/Tests.antt =====
-- internal/fs/compression/zso/zso.go: an image with one compressed block and two bytes of padding.
use udpfsd.Common.{
  ℕ, ◌≡◌, ◌==◌, refl, arith, Option, none, some, List, [], ◌∷◌, if◌then◌else◌, false, length, ok,
}
use udpfsd.Compression.Zso.{Zso, block_place, read_place, decode_block, retry, read_zso_block}
use udpfsd.Compression.Zso.Longest.{IsLongest, read_zso_block-IsLongest}

-- A decompressor that takes inputs of two bytes only
abbrev two_only : ℕ → List ℕ → Option (List ℕ)
two_only n bytes = if length bytes == 2 then some bytes else none

abbrev padded_image : Zso
padded_image = record {
  image = 9 ∷ 1 ∷ 2 ∷ 0 ∷ 0 ∷ [];
  offsets = λ i. if i == 0 then 1 else 5;
  block_size = 4;
  num_blocks = 1;
  size = 4;
  align = 0;
  ziso = false;
}

block_place_test : block_place padded_image 0 1 ≡ (1, 4)
unfolding block_place
block_place_test = refl

read_test : read_zso_block two_only padded_image 0 ≡ ok (some (1 ∷ 2 ∷ []))
unfolding read_zso_block read_place block_place udpfsd.Compression.Formats.read_full decode_block
    retry
read_test = refl

read_zso_block-IsLongest_example :
    (r : Option (List ℕ)) × (read_zso_block two_only padded_image 0 ≡ ok r)
    × IsLongest (two_only 4) (1 ∷ 2 ∷ 0 ∷ 0 ∷ []) 4 r
read_zso_block-IsLongest_example =
    read_zso_block-IsLongest two_only padded_image 0 1 4 (omega arith) (omega arith) refl
      block_place_test (omega arith) (omega arith) (omega arith)
