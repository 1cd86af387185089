-- ===== src/Compression/Zso/Longest.antt =====
-- internal/fs/compression/zso/zso.go: a compressed block is the output for the longest input that the
-- decompressor takes, since a block can end in padding.
use udpfsd.Common.{
  ℕ, zero, suc, ◌+◌, ◌/◌, ◌%◌, ◌^◌, ◌≤◌, ◌<◌, ◌==◌, ◌||◌, ◌≡◌, inl, inr, refl, ap, ◌∙◌, arith, true,
  false, Option, none, some, List, [], ◌∷◌, leb, length, take, drop, ok, ==_iff, Bool-cases,
  take_all, length-take, length-drop, subst,
}
use udpfsd.Compression.Formats.{read_full}
use udpfsd.Compression.Zso.{
  Zso, first_found, retry, decode_block, block_place, read_place, read_zso_block,
}

-- The output for the longest of the first n prefixes that are not empty, or none where all fail
pub data IsLongest (f : List ℕ → Option (List ℕ)) (bytes : List ℕ) (n : ℕ)
    : Option (List ℕ) → Type 0 where
  hit :
      (k : ℕ) (out : List ℕ)
      → 0 < k
      → k ≤ n
      → f (take k bytes) ≡ some out
      → ((m : ℕ) → k < m → m ≤ n → f (take m bytes) ≡ none)
      → IsLongest f bytes n (some out)
  miss : ((m : ℕ) → 0 < m → m ≤ n → f (take m bytes) ≡ none) → IsLongest f bytes n none

take-suc : (n : ℕ) (bytes : List ℕ) → take n (take (suc n) bytes) ≡ take n bytes
take-suc zero bytes = refl
take-suc (suc n) [] = refl
take-suc (suc n) (x ∷ bytes) = ap (λ l. x ∷ l) (take-suc n bytes)

module _ (f : List ℕ → Option (List ℕ)) (bytes : List ℕ) where
  none-up_to :
      (n m : ℕ)
      → f (take (suc n) bytes) ≡ none
      → (m ≤ n → f (take m bytes) ≡ none)
      → m ≤ suc n
      → f (take m bytes) ≡ none
  none-up_to n m e h b = elim (Bool-cases (m == suc n)) [
    | inl t ↦ ap (λ k. f (take k bytes)) ((==_iff m (suc n)).0 t) ∙ e
    | inr t ↦ h (ground (arith))
  ]

  IsLongest-suc :
      (n : ℕ) (r : Option (List ℕ))
      → f (take (suc n) bytes) ≡ none
      → IsLongest f bytes n r
      → IsLongest f bytes (suc n) r
  IsLongest-suc n _ e (hit k out p q g h) =
      hit k out p (omega arith) g (λ m a b. none-up_to n m e (h m a) b)
  IsLongest-suc n _ e (miss h) = miss (λ m a b. none-up_to n m e (h m a) b)

  first_found-IsLongest :
      (n : ℕ) (o r : Option (List ℕ))
      → f (take (suc n) bytes) ≡ o
      → IsLongest f bytes n r
      → IsLongest f bytes (suc n) (first_found o r)
  first_found-IsLongest n none r e i = IsLongest-suc n r e i
  first_found-IsLongest n (some out) r e i =
      hit (suc n) out (omega arith) (omega arith) e (λ m a b. absurd (omega arith))

module _ (uncompress : ℕ → List ℕ → Option (List ℕ)) (block_size : ℕ) (bytes : List ℕ) where
  retry-IsLongest :
      (n : ℕ)
      → IsLongest (uncompress block_size) bytes n (retry uncompress block_size n (take n bytes))
  unfolding retry
  retry-IsLongest zero = miss (λ m a b. absurd (omega arith))
  retry-IsLongest (suc n) =
      rw (take-suc n bytes)
        (first_found-IsLongest (uncompress block_size) bytes n _ _ refl (retry-IsLongest n))

  decode_block-IsLongest :
      IsLongest
        (uncompress block_size)
        bytes
        (length bytes)
        (decode_block uncompress block_size false (some bytes))
  unfolding decode_block
  decode_block-IsLongest =
      subst
        (λ l.
          IsLongest (uncompress block_size) bytes (length bytes)
            (retry uncompress block_size (length bytes) l))
        (take_all (length bytes) bytes (omega arith)) (retry-IsLongest (length bytes))

module _ (uncompress : ℕ → List ℕ → Option (List ℕ)) where
  -- A block that is compressed and whose bytes lie in the file is read: it is the output for the longest part
  -- of them from their start that the decompressor takes, or an error where it takes none of one byte or more.
  pub read_zso_block-IsLongest :
      (z : Zso) (idx offset n : ℕ)
      → idx < z.num_blocks
      → z.num_blocks < 2 ^ 63
      → z.offsets idx / 2 ^ 31 % 2 ≡ 0
      → block_place z idx (z.offsets idx) ≡ (offset, n)
      → offset + n ≤ length z.image
      → offset < 2 ^ 63
      → n < 2 ^ 48
      → (r : Option (List ℕ)) × (read_zso_block uncompress z idx ≡ ok r)
        × IsLongest (uncompress z.block_size) (take n (drop offset z.image)) n r
  unfolding read_zso_block read_place read_full
  read_zso_block-IsLongest z idx offset n h c e p inside o s =
      let bytes = take n (drop offset z.image) in
      let l : length bytes ≡ n =
        omega (arith, length-take n (drop offset z.image), length-drop offset z.image) in
      let t : (leb (2 ^ 63) z.num_blocks || leb z.num_blocks idx) ≡ false = ground arith in
      let a : leb (2 ^ 63) offset ≡ false = ground arith in
      let b : leb (2 ^ 48) n ≡ false = ground arith in
      let q : (length bytes == n) ≡ true = (==_iff (length bytes) n).1 l in
      let f : (z.offsets idx / 2 ^ 31 % 2 == 1) ≡ false = ground arith in
      (
        decode_block uncompress z.block_size false (some bytes),
        rw (t, p) (rw (a, b) (rw (f, q) refl)),
        subst
            (λ k.
              IsLongest (uncompress z.block_size) bytes k
                (decode_block uncompress z.block_size false (some bytes)))
            l (decode_block-IsLongest uncompress z.block_size bytes),
      )
