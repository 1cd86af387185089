-- ===== src/Compression/Cso/Tests.antt =====
-- internal/fs/compression/cso/cso.go: an image with a plain and a compressed block.
use udpfsd.Common.{
  leb, ◌||◌, ◌^◌, true, sym, ◌∙◌, subst, ◌==◌, if◌then◌else◌, zero, suc, Returns, ℕ, ◌≡◌, refl,
  arith, Option, none, some, List, [], ◌∷◌, ok,
}
use udpfsd.Compression.Reader.{BlockReader, read}
use udpfsd.Compression.Reader.Image.{Gives}
use udpfsd.Compression.Cso.Reading.{
  Reaches, no_block, block, IsSourceOf, reader_at, Hold, encode-Gives,
}
use udpfsd.Compression.Cso.{Cso, parse_header, read_block}
use udpfsd.Compression.Cso.Encode.{Stored, plain, packed, encode}
use udpfsd.Compression.Cso.Opened.{opened, IsEncoding}
use udpfsd.Compression.Cso.RoundTrip.{block_read, read_block-encode}

abbrev inflate : List ℕ → Option (List ℕ)
inflate z = some (1 ∷ 2 ∷ [])

abbrev unzlib : List ℕ → Option (List ℕ)
unzlib z = none

abbrev two_blocks : List Stored
two_blocks = plain (7 ∷ 8 ∷ 9 ∷ 10 ∷ []) ∷ packed (5 ∷ 0 ∷ 0 ∷ 0 ∷ []) ∷ []

two_blocks-IsEncoding : IsEncoding 8 4 2 [] two_blocks
two_blocks-IsEncoding = record {
  positive = omega arith;
  fits = omega arith;
  size_fits = omega arith;
  count = refl;
  sized = (refl, tt);
  small = omega arith;
  units = omega arith;
  start_aligned = (9, refl);
  aligned = ((1, refl), ((1, refl), tt));
}

read_block-encode_example :
    (c : Cso) × (parse_header (encode 8 4 2 [] two_blocks) ≡ ok (some c))
    × (read_block inflate unzlib c 1 ≡ ok (some (1 ∷ 2 ∷ 0 ∷ 0 ∷ [])))
read_block-encode_example =
    read_block-encode inflate unzlib 8 4 2 [] two_blocks 1 two_blocks-IsEncoding (omega arith)

-- The image of which the blocks hold the first six bytes
abbrev six : List ℕ
six = 7 ∷ 8 ∷ 9 ∷ 10 ∷ 1 ∷ 2 ∷ []

six-IsEncoding : IsEncoding 6 4 2 [] two_blocks
six-IsEncoding = record {
  positive = omega arith;
  fits = omega arith;
  size_fits = omega arith;
  count = refl;
  sized = (refl, tt);
  small = omega arith;
  units = omega arith;
  start_aligned = (9, refl);
  aligned = ((1, refl), ((1, refl), tt));
}

six-Hold : Hold inflate unzlib six 4 two_blocks
six-Hold zero h = ([], refl)
six-Hold (suc zero) h = (0 ∷ 0 ∷ [], refl)
six-Hold (suc (suc k)) h = absurd (omega arith)

abbrev two_interface : BlockReader
two_interface = record {
  block_size = 4;
  num_blocks = 2;
  uncompressed_size = 6;
  read_block = λ k.
      if k == 0
      then some (7 ∷ 8 ∷ 9 ∷ 10 ∷ [])
      else if k == 1
      then some (1 ∷ 2 ∷ 0 ∷ 0 ∷ [])
      else none;
}

ok-injective : {a b : Option (List ℕ)} → ok a ≡ ok b → a ≡ b
ok-injective e = cc

two_blocks-reads :
    (k : ℕ) (r : Option (List ℕ))
    → read_block inflate unzlib (opened 6 4 2 [] two_blocks) k ≡ ok r
    → Reaches r (two_interface.read_block k)
unfolding read_block
two_blocks-reads zero r e =
    subst (λ o. Reaches o (two_interface.read_block 0))
      (ok-injective
        (sym (block_read inflate unzlib 6 4 2 [] two_blocks 0 six-IsEncoding (omega arith)) ∙ e))
      (block (7 ∷ 8 ∷ 9 ∷ 10 ∷ []) [])
two_blocks-reads (suc zero) r e =
    subst (λ o. Reaches o (two_interface.read_block 1))
      (ok-injective
        (sym (block_read inflate unzlib 6 4 2 [] two_blocks 1 six-IsEncoding (omega arith)) ∙ e))
      (block (1 ∷ 2 ∷ 0 ∷ 0 ∷ []) [])
two_blocks-reads (suc (suc k)) r e =
    let t : (leb (2 ^ 63) 2 || leb 2 (suc (suc k))) ≡ true = ground arith in
    let z : ok none ≡ ok r = rw (read_block, t) at e in
    let q : two_interface.read_block (suc (suc k)) ≡ none = ground arith in
    subst (λ o. Reaches o (two_interface.read_block (suc (suc k)))) (ok-injective z)
      (subst (λ o. Reaches none o) (sym q) no_block)

two_interface-IsSourceOf : IsSourceOf inflate unzlib (opened 6 4 2 [] two_blocks) two_interface
two_interface-IsSourceOf = record {
  same_block_size = refl;
  same_num_blocks = refl;
  same_size = refl;
  reads = two_blocks-reads;
}

encode-Gives_example :
    (parse_header (encode 6 4 2 [] two_blocks) ≡ ok (some (opened 6 4 2 [] two_blocks)))
    × Returns (Gives six (9 ∷ 10 ∷ 1 ∷ []) 5) (read 3 (reader_at inflate unzlib 8 2 two_interface))
encode-Gives_example =
    encode-Gives inflate unzlib six 4 2 8 2 3 [] two_blocks two_interface six-IsEncoding six-Hold
      two_interface-IsSourceOf (omega arith)
