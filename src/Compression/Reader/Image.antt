-- ===== src/Compression/Reader/Image.antt =====
-- internal/fs/compression/reader.go: Read returns the bytes of the image.
use native.Mathlib.Nat.{div-add-mod'}
use udpfsd.Common.{
  ℕ, ◌+◌, ◌-◌, ◌*◌, ◌/◌, ◌%◌, ◌^◌, ◌<◌, ◌≤◌, ◌≡◌, refl, sym, ap, ◌∙◌, subst, arith, Bool, false,
  Option, none, some, List, ◌++◌, if◌then◌else◌, ◌==◌, ◌||◌, ltb, length, take, drop, length-append,
  length-take, length-drop, drop-drop, le→ltb,
}
use udpfsd.Compression.Reader.{
  CachedReader, ReadResult, no_error, block_length, Loop, copy_block, read_round, get_block,
  signed_leb,
}
use udpfsd.Compression.Reader.Blocks.{IsReader, Reads, get_block-Reads}
use udpfsd.Compression.Reader.Pieces.{piece}
use udpfsd.Compression.Reader.Places.{place, length_of}

-- The blocks of the source are the image: block `k` begins with the bytes of the image at `k` times the
-- block's size, and there are as many blocks as the image needs.
pub record IsImage (image : List ℕ) (c : CachedReader) : Type 0 where
  pub positive : 0 < c.block_size
  pub size : c.size ≡ length image
  pub fits : c.size < 2 ^ 63
  pub count :
      c.num_blocks
      ≡ (if c.size % c.block_size == 0 then c.size / c.block_size else c.size / c.block_size + 1)
  pub blocks :
      (k : ℕ)
      → k * c.block_size < length image
      → (pad : List ℕ) × (c.source.read_block k
          ≡ some (take c.block_size (drop (k * c.block_size) image) ++ pad))

-- A reader of the image, at `pos`
pub record IsAt (image : List ℕ) (pos : ℕ) (c : CachedReader) : Type 0 where
  pub reader : IsReader c
  pub is_image : IsImage image c
  pub position : c.pos ≡ pos

-- What `Read` has come to: all that was wanted, and no error
pub record Gives (image want : List ℕ) (pos : ℕ) (r : ReadResult × CachedReader) : Type 0 where
  pub bytes : r.0.bytes ≡ want
  pub fine : r.0.error ≡ no_error
  pub after : IsAt image pos r.1

pub if_false : {A : Type 0} {b : Bool} (x y : A) → b ≡ false → (if b then x else y) ≡ y
if_false x y e = rw e

copy_block-some :
    (n count offset : ℕ) (got : List ℕ) (r : Option (List ℕ) × CachedReader) (loop : Loop)
    {block : List ℕ}
    → r.0 ≡ some block
    → offset + count ≤ length block
    → copy_block n count offset got r loop
      ≡ loop
          (n - count)
          (got ++ take count (drop offset block))
          (record r.1 { pos = r.1.pos + count })
unfolding copy_block
copy_block-some n count offset got (none, c) loop e h = absurd (cc)
copy_block-some n count offset got (some b, c) loop {block} e h =
    if_false {b = ltb (length b) (offset + count)} _ _
      (le→ltb (length b) (offset + count) (omega (arith, ap length (some_same e))))
    ∙ ap
        (λ x.
          loop (n - count) (got ++ take count (drop offset x)) (record c { pos = c.pos + count }))
        (some_same e)
  where
    some_same : {x y : List ℕ} → some x ≡ some y → x ≡ y
    some_same e = cc

-- How many bytes a round reads
abbrev count_of : ℕ → CachedReader → ℕ
count_of n c =
    let avail = block_length (c.pos / c.block_size) c - c.pos % c.block_size in
    if ltb avail n then avail else n

read_round-copy :
    (n : ℕ) (got : List ℕ) (c : CachedReader) (loop : Loop)
    → 0 < n
    → c.pos < c.size
    → c.size < 2 ^ 63
    → 0 < c.block_size
    → c.pos % c.block_size < block_length (c.pos / c.block_size) c
    → read_round n got c loop
      ≡ copy_block n
          (count_of n c)
          (c.pos % c.block_size)
          got
          (get_block (c.pos / c.block_size) c)
          loop
unfolding read_round signed_leb
read_round-copy n got c loop more inside fits positive short =
    if_false {b = (n == 0) || signed_leb c.size c.pos} _ _ (ground (arith, more, inside, fits))
    ∙ if_false {b = c.block_size == 0} _ _ (ground (arith, positive))
    ∙ if_false {b = block_length (c.pos / c.block_size) c - c.pos % c.block_size == 0} _ _
        (ground (arith, short))

block_length-length_of :
    (q : ℕ) (c : CachedReader)
    → block_length q c ≡ length_of q c.num_blocks (c.size % c.block_size) c.block_size
unfolding block_length
block_length-length_of q c = refl

-- The state after a round that reads `t` bytes
abbrev pub after_round : ℕ → CachedReader → CachedReader
after_round t c = let c1 = (get_block (c.pos / c.block_size) c).1 in record c1 { pos = c1.pos + t }

-- A round reads the next bytes of the image.
pub record Advances (image : List ℕ) (n : ℕ) (got : List ℕ) (c : CachedReader) (loop : Loop)
    : Type 0 where
  pub count : ℕ
  pub some_read : 0 < count
  pub not_more : count ≤ n
  pub result :
      read_round n got c loop
      ≡ loop (n - count) (got ++ take count (drop c.pos image)) (after_round count c)
  pub after : IsAt image (c.pos + count) (after_round count c)

IsAt-after_round :
    (image : List ℕ) (t : ℕ) (c : CachedReader)
    → IsAt image c.pos c
    → IsAt image (c.pos + t) (after_round t c)
IsAt-after_round image t c a =
    let g = get_block-Reads (c.pos / c.block_size) c a.reader in
    record {
      reader = record { cache = g.reader.cache; coherent = g.reader.coherent };
      is_image =
          subst (λ (x : CachedReader). IsImage image (record x { pos = x.pos + t })) (sym g.same)
            (record {
              positive = a.is_image.positive;
              size = a.is_image.size;
              fits = a.is_image.fits;
              count = a.is_image.count;
              blocks = a.is_image.blocks;
            });
      position = ap (λ (x : CachedReader). x.pos + t) g.same;
    }

pub read_round-Advances :
    (image : List ℕ) (n : ℕ) (got : List ℕ) (c : CachedReader) (loop : Loop)
    → IsAt image c.pos c
    → 0 < n
    → c.pos < c.size
    → Advances image n got c loop
unfolding block_length
read_round-Advances image n got c loop a more inside = record {
  count = t;
  some_read = ground (arith, p.0, more);
  not_more = ground arith;
  result =
      read_round-copy n got c loop more inside a.is_image.fits a.is_image.positive p.0
      ∙ copy_block-some n t o got (get_block q c) loop
          (g.answer ∙ (a.is_image.blocks q inside_block).1) long
      ∙ ap (λ x. loop (n - t) (got ++ x) (after_round t c)) taken;
  after = IsAt-after_round image t c a;
}
  where
    q : ℕ
    q = c.pos / c.block_size

    o : ℕ
    o = c.pos % c.block_size

    t : ℕ
    t = count_of n c

    p :
        (o < block_length q c)
        × (block_length q c ≤ c.block_size)
        × (q * c.block_size + block_length q c ≤ c.size)
    p = place c.block_size c.size c.num_blocks c.pos a.is_image.positive a.is_image.count inside

    g : Reads q c (get_block q c)
    g = get_block-Reads q c a.reader

    inside_block : q * c.block_size < length image
    inside_block = omega (arith, p.0, p.2, a.is_image.size)

    pad : List ℕ
    pad = (a.is_image.blocks q inside_block).0

    rest : List ℕ
    rest = drop (q * c.block_size) image

    fits : o + t ≤ block_length q c
    fits = ground (arith, p.0)

    enough : o + t ≤ length rest
    enough = omega (arith, length-drop (q * c.block_size) image, fits, p.2, a.is_image.size)

    long : o + t ≤ length (take c.block_size rest ++ pad)
    long = omega (
      arith,
      length-append (take c.block_size rest) pad,
      length-take c.block_size rest,
      enough,
      fits,
      p.1,
    )

    sum : q * c.block_size + o ≡ c.pos
    sum = div-add-mod' c.pos c.block_size

    taken : take t (drop o (take c.block_size rest ++ pad)) ≡ take t (drop c.pos image)
    taken =
        piece o t c.block_size rest pad (omega (arith, fits, p.1)) enough
        ∙ ap (take t) (drop-drop o (q * c.block_size) image ∙ ap (λ k. drop k image) sum)
