-- ===== src/Compression/Cso/Opened.antt =====
-- internal/fs/compression/cso/cso.go: an image is opened, and a block is read from its place in it.
use native.Mathlib.Nat.{mul-div_left}
use udpfsd.Common.{
  ℕ, ◌+◌, ◌-◌, ◌*◌, ◌/◌, ◌%◌, ◌^◌, ◌≤◌, ◌<◌, ◌==◌, ◌≡◌, refl, sym, ap, ◌∙◌, arith, Bool, true,
  false, Option, some, List, [], ◌∷◌, ◌++◌, leb, length, take, drop, u64, get_u32, ok, ==_iff,
}
use udpfsd.Udpfs.Requests.Parsing.{word, take-append}
use udpfsd.Compression.Formats.{read_full, signed_div, blocks_of}
use udpfsd.Compression.Cso.{Cso, with_table, read_table, read_header, parse_header, decode, read_at}
use udpfsd.Compression.Cso.Encode.{
  Stored, plain, packed, body, flag, offsets_from, table, bodies, start_of, header, encode,
  length-table, length-offsets_from, table-entry, before, nth, offsets_from-entry,
  offsets_from-AllWords, drop-past, bodies-nth, before-suc, before-bound, before-IsMultiple,
  IsMultiple, AllAligned, two_pow-positive, div_mono,
}

abbrev pub AllSized : ℕ → List Stored → Type 0
AllSized n [] = Unit
AllSized n (plain b ∷ ss) = (length b ≡ n) × AllSized n ss
AllSized n (packed z ∷ ss) = AllSized n ss

-- As many blocks as the size needs, of which those that are not compressed have the size of a block, in a
-- file of less than 2^47 bytes. Each begins at a whole number of units of 2 ^ align bytes, of which there
-- are fewer than 2^31.
pub record IsEncoding (size block_size align : ℕ) (gap : List ℕ) (blocks : List Stored)
    : Type 0 where
  pub positive : 0 < block_size
  pub fits : block_size < 2 ^ 32
  pub size_fits : size < 2 ^ 62
  pub count : (size + block_size - 1) / block_size ≡ length blocks
  pub sized : AllSized block_size blocks
  pub small : start_of gap blocks + length (bodies blocks) < 2 ^ 47
  pub units : (start_of gap blocks + length (bodies blocks)) / 2 ^ align < 2 ^ 31
  pub start_aligned : IsMultiple (2 ^ align) (start_of gap blocks)
  pub aligned : AllAligned align blocks

read_full-some :
    (offset n : ℕ) (image x : List ℕ)
    → take n (drop offset image) ≡ x
    → length x ≡ n
    → read_full offset n image ≡ some x
unfolding read_full
read_full-some offset n image x e l =
    let t : (length x == n) ≡ true = (==_iff (length x) n).1 l in rw (e, t) refl

abbrev pub entries : ℕ → List ℕ → List Stored → List ℕ
entries align gap blocks = table (offsets_from align (start_of gap blocks) blocks)

-- The image that is read from its bytes
abbrev pub opened : ℕ → ℕ → ℕ → List ℕ → List Stored → Cso
opened size block_size align gap blocks = record {
  image = encode size block_size align gap blocks;
  offsets = λ i. get_u32 (entries align gap blocks) (i * 4);
  block_size = block_size;
  num_blocks = length blocks;
  size = size;
  align = align;
}

module _ (size block_size align : ℕ) (gap : List ℕ) (blocks : List Stored)
    (i : IsEncoding size block_size align gap blocks) where
  blocks_of_lem : blocks_of size block_size ≡ length blocks
  unfolding blocks_of signed_div
  blocks_of_lem =
      let small : u64 (size + block_size - 1) ≡ size + block_size - 1 =
        omega (arith, i.size_fits, i.fits) in
      let b : leb (2 ^ 63) (size + block_size - 1) ≡ false = ground (arith, i.size_fits, i.fits) in
      rw (small, b) i.count

  length-entries : length (entries align gap blocks) ≡ (length blocks + 1) * 4
  length-entries = omega (
    arith,
    length-table (offsets_from align (start_of gap blocks) blocks),
    length-offsets_from align (start_of gap blocks) blocks,
  )

  table_read :
      read_full 24 ((length blocks + 1) * 4) (encode size block_size align gap blocks)
      ≡ some (entries align gap blocks)
  table_read =
      read_full-some 24 ((length blocks + 1) * 4) (encode size block_size align gap blocks)
        (entries align gap blocks)
        (ap (λ n. take n (entries align gap blocks ++ (gap ++ bodies blocks))) (sym length-entries)
          ∙ take-append (entries align gap blocks) (gap ++ bodies blocks))
        length-entries

  read_table_lem :
      read_table (encode size block_size align gap blocks) size block_size align
      ≡ ok (some (opened size block_size align gap blocks))
  unfolding read_table with_table
  read_table_lem =
      let n : u64 ((length blocks + 1) * 4) ≡ (length blocks + 1) * 4 = omega (arith, i.small) in
      let b : leb (2 ^ 48) ((length blocks + 1) * 4) ≡ false = ground (arith, i.small) in
      rw blocks_of_lem (
        rw (n, b)
          (rw table_read (
            let m : u64 (length blocks + 1) ≡ length blocks + 1 = omega (arith, i.small) in
            rw blocks_of_lem (rw (m, b) refl))))

  header_read :
      read_full 0 24 (encode size block_size align gap blocks) ≡ some (header size block_size align)
  header_read =
      read_full-some 0 24 (encode size block_size align gap blocks) (header size block_size align)
        refl refl

  pub parse_header-encode :
      parse_header (encode size block_size align gap blocks)
      ≡ ok (some (opened size block_size align gap blocks))
  unfolding parse_header read_header
  parse_header-encode =
      let lo = word (size % 2 ^ 32) (omega arith) in
      let hi = word (size / 2 ^ 32) (omega (arith, i.size_fits)) in
      let w = word block_size i.fits in
      let e : size % 2 ^ 32 + size / 2 ^ 32 * 2 ^ 32 ≡ size = omega arith in
      let z : (block_size == 0) ≡ false = ground (arith, i.positive) in
      rw header_read (rw (w, z) (rw (lo, hi) (rw e read_table_lem)))

  -- Where a block begins, and in which unit
  abbrev pub place_of : ℕ → ℕ
  place_of k = start_of gap blocks + before k blocks

  abbrev pub unit_of : ℕ → ℕ
  unit_of k = place_of k / 2 ^ align

  pub unit_of-place : (k : ℕ) → unit_of k * 2 ^ align ≡ place_of k
  unit_of-place k =
      let b = before-IsMultiple align blocks k i.aligned in
      let e : place_of k ≡ (i.start_aligned.0 + b.0) * 2 ^ align =
        omega (arith, i.start_aligned.1, b.1) in
      ap (λ p. p / 2 ^ align * 2 ^ align) e
      ∙ ap (λ q. q * 2 ^ align) (mul-div_left (i.start_aligned.0 + b.0) (two_pow-positive align))
      ∙ sym e

  pub unit_of-small : (k : ℕ) → unit_of k < 2 ^ 31
  unit_of-small k =
      let b = before-bound blocks k in
      omega (
        arith,
        i.units,
        div_mono (place_of k) (start_of gap blocks + length (bodies blocks)) align
            (omega (arith, b)),
      )

  -- The entry of a block in the table
  pub entry_lem :
      (k : ℕ)
      → k ≤ length blocks
      → get_u32 (entries align gap blocks) (k * 4) ≡ unit_of k + flag (nth blocks k)
  entry_lem k h =
      table-entry (offsets_from align (start_of gap blocks) blocks) k
        (offsets_from-AllWords align (start_of gap blocks) blocks i.units)
        (omega (arith, length-offsets_from align (start_of gap blocks) blocks, h))
      ∙ offsets_from-entry align (start_of gap blocks) blocks k h

  -- The bytes of a block in the image
  body_read :
      (k : ℕ)
      → k < length blocks
      → read_full
          (place_of k)
          (length (body (nth blocks k)))
          (encode size block_size align gap blocks)
        ≡ some (body (nth blocks k))
  body_read k h =
      let n = before k blocks in
      let inner = drop-past gap (bodies blocks) n in
      let middle = drop-past (entries align gap blocks) (gap ++ bodies blocks) (length gap + n) in
      let outer =
        drop-past (header size block_size align)
          (entries align gap blocks ++ (gap ++ bodies blocks))
          (length (entries align gap blocks) + (length gap + n)) in
      let at : place_of k
          ≡ length (header size block_size align)
            + (length (entries align gap blocks) + (length gap + n)) =
        omega (arith, length-entries) in
      read_full-some (place_of k) (length (body (nth blocks k)))
        (encode size block_size align gap blocks) (body (nth blocks k))
        (ap
            (λ m.
              take (length (body (nth blocks k)))
                (drop m (encode size block_size align gap blocks)))
            at
          ∙ (ap (λ d. take (length (body (nth blocks k))) d) (outer ∙ middle ∙ inner)
              ∙ bodies-nth blocks k h))
        refl

  -- Reading at the place and with the size that the table gives
  pub read_at_lem :
      (inflate unzlib : List ℕ → Option (List ℕ)) (is_plain : Bool) (k n : ℕ)
      → k < length blocks
      → n ≡ length (body (nth blocks k))
      → read_at inflate unzlib (opened size block_size align gap blocks) is_plain (place_of k) n
        ≡ ok (decode inflate unzlib block_size is_plain (some (body (nth blocks k))))
  unfolding read_at
  read_at_lem inflate unzlib is_plain k n h e =
      let p = before-bound blocks k in
      let s = before-suc blocks k h in
      let q = before-bound blocks (k + 1) in
      let a : leb (2 ^ 63) (place_of k) ≡ false = ground (arith, i.small, p) in
      let b : leb (2 ^ 48) n ≡ false = ground (arith, i.small, s, q, e) in
      rw (a, b)
        (ap
            (λ m. ok (
              decode inflate unzlib block_size is_plain
                (read_full (place_of k) m (encode size block_size align gap blocks))))
            e
          ∙ ap (λ o. ok (decode inflate unzlib block_size is_plain o)) (body_read k h))
