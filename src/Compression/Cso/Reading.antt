-- ===== src/Compression/Cso/Reading.antt =====
-- internal/fs/compression/cso/cso.go under internal/fs/compression/reader.go: an image is read through
-- the cache.
use mathlib.Core.Option.{some-injective}
use native.Mathlib.Nat.{div-add-mod', div-eq_of_lt-le, mod-lt, le-div_iff_mul-le}
use udpfsd.Common.{
  ℕ, suc, ◌+◌, ◌-◌, ◌*◌, ◌/◌, ◌%◌, ◌≤◌, ◌<◌, ◌==◌, ◌≡◌, inl, inr, refl, sym, ap, ◌∙◌, arith, subst,
  Option, none, some, List, ◌++◌, if◌then◌else◌, length, take, drop, min, ok, Returns, append_assoc,
  ==_iff, Bool-cases,
}
use udpfsd.Compression.Cso.{Cso, parse_header, read_block}
use udpfsd.Compression.Cso.Encode.{Stored, encode, nth}
use udpfsd.Compression.Cso.Opened.{IsEncoding, opened, parse_header-encode}
use udpfsd.Compression.Cso.RoundTrip.{content, block_read}
use udpfsd.Compression.Reader.{BlockReader, CachedReader, new_cached_reader, read}
use udpfsd.Compression.Reader.Blocks.{new_cached_reader-IsReader}
use udpfsd.Compression.Reader.Image.{IsAt, Gives}
use udpfsd.Compression.Reader.Whole.{read-Gives}

-- What a slice expression can reach of a block: its bytes, and what its capacity has beyond them
pub data Reaches : Option (List ℕ) → Option (List ℕ) → Type 0 where
  no_block : Reaches none none
  block : (bytes spare : List ℕ) → Reaches (some bytes) (some (bytes ++ spare))

ceil_lem : (s b : ℕ) → 0 < b → (s + b - 1) / b ≡ (if s % b == 0 then s / b else s / b + 1)
ceil_lem s b h =
    let d = div-add-mod' s b in
    let m = mod-lt s h in
    elim (Bool-cases (s % b == 0)) [
      | inl t ↦ rw t (
          div-eq_of_lt-le b (omega (arith, d, m, (==_iff (s % b) 0).0 t))
            (omega (arith, d, m, (==_iff (s % b) 0).0 t)))
      | inr f ↦
          let n : 0 < s % b = ground arith in
          rw f (div-eq_of_lt-le b (omega (arith, d, m, n)) (omega (arith, d, m, n)))
    ]

module _ (inflate unzlib : List ℕ → Option (List ℕ)) where
  -- The interface of an image: where ReadBlock returns, it is that of the interface.
  pub record IsSourceOf (c : Cso) (br : BlockReader) : Type 0 where
    pub same_block_size : br.block_size ≡ c.block_size
    pub same_num_blocks : br.num_blocks ≡ c.num_blocks
    pub same_size : br.uncompressed_size ≡ c.size
    pub reads :
        (k : ℕ) (r : Option (List ℕ))
        → read_block inflate unzlib c k ≡ ok r
        → Reaches r (br.read_block k)

  -- The blocks hold the image: each is its bytes at the place of the block, or more at its end.
  abbrev pub Hold : List ℕ → ℕ → List Stored → Type 0
  Hold image block_size blocks =
      (k : ℕ)
      → k < length blocks
      → (pad : List ℕ) × (content inflate unzlib block_size (nth blocks k)
          ≡ some (take block_size (drop (k * block_size) image) ++ pad))

  blocks_enough :
      (size block_size align : ℕ) (gap : List ℕ) (blocks : List Stored) (k : ℕ)
      → IsEncoding size block_size align gap blocks
      → k * block_size < size
      → k < length blocks
  blocks_enough size block_size align gap blocks k i h =
      subst (λ m. suc k ≤ m) i.count ((le-div_iff_mul-le i.positive).1 (omega (arith, i.positive)))

  reached :
      (want pad : List ℕ) {r s : Option (List ℕ)}
      → Reaches r s
      → r ≡ some (want ++ pad)
      → (more : List ℕ) × (s ≡ some (want ++ more))
  reached want pad no_block e = absurd (cc)
  reached want pad (block bytes spare) e = (
    pad ++ spare,
    ap (λ b. some (b ++ spare)) (some-injective _ _ e) ∙ ap some (append_assoc want pad spare),
  )

  -- The reader over an interface, moved to a position
  abbrev pub reader_at : ℕ → ℕ → BlockReader → CachedReader
  reader_at cache_size pos br = record (new_cached_reader br cache_size) { pos = pos }

  reader_at-IsAt :
      (image : List ℕ) (block_size align cache_size pos : ℕ) (gap : List ℕ) (blocks : List Stored)
      (br : BlockReader)
      → IsEncoding (length image) block_size align gap blocks
      → Hold image block_size blocks
      → IsSourceOf (opened (length image) block_size align gap blocks) br
      → IsAt image pos (reader_at cache_size pos br)
  unfolding new_cached_reader
  reader_at-IsAt image block_size align cache_size pos gap blocks br i hold s =
      let r = new_cached_reader-IsReader br cache_size in
      record {
        reader = record { cache = r.cache; coherent = r.coherent };
        is_image = record {
          positive = subst (λ b. 0 < b) (sym s.same_block_size) i.positive;
          size = s.same_size;
          fits = omega (arith, s.same_size, i.size_fits);
          count =
              rw (s.same_size, s.same_block_size)
                (s.same_num_blocks ∙ sym i.count ∙ ceil_lem (length image) block_size i.positive);
          blocks = rw s.same_block_size (λ k h.
              let e = blocks_enough (length image) block_size align gap blocks k i h in
              reached _ (hold k e).0
                (s.reads k _
                  (block_read inflate unzlib (length image) block_size align gap blocks k i e))
                (hold k e).1);
        };
        position = refl;
      }

  -- A CISO image of the form of `IsEncoding`, of any alignment, whose blocks hold the bytes of the original
  -- image, is opened; and Read of `n` bytes through the cache at any position in it does not panic and has
  -- no error, over an interface whose ReadBlock is that of the image: its bytes are the next bytes of the
  -- original, `n` of them or all that are left.
  pub encode-Gives :
      (image : List ℕ) (block_size align cache_size pos n : ℕ) (gap : List ℕ) (blocks : List Stored)
      (br : BlockReader)
      → IsEncoding (length image) block_size align gap blocks
      → Hold image block_size blocks
      → IsSourceOf (opened (length image) block_size align gap blocks) br
      → pos < length image
      → (parse_header (encode (length image) block_size align gap blocks)
          ≡ ok (some (opened (length image) block_size align gap blocks)))
        × Returns
            (Gives image (take n (drop pos image)) (min (pos + n) br.uncompressed_size))
            (read n (reader_at cache_size pos br))
  unfolding new_cached_reader
  encode-Gives image block_size align cache_size pos n gap blocks br i hold s h = (
    parse_header-encode (length image) block_size align gap blocks i,
    read-Gives image n (reader_at cache_size pos br)
        (reader_at-IsAt image block_size align cache_size pos gap blocks br i hold s)
        (subst (λ m. pos < m) (sym s.same_size) h),
  )
