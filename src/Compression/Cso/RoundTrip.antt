-- ===== src/Compression/Cso/RoundTrip.antt =====
-- internal/fs/compression/cso/cso.go: the blocks of an image are read back.
use udpfsd.Common.{
  ℕ, zero, suc, ◌+◌, ◌-◌, ◌*◌, ◌/◌, ◌%◌, ◌^◌, ◌<◌, ◌==◌, ◌||◌, ◌≡◌, ◌⊎◌, inl, inr, refl, sym, ap,
  ◌∙◌, arith, true, false, Option, none, some, List, [], ◌∷◌, leb, length, append-nil, u64, get_u32,
  ok,
}
use udpfsd.Compression.Cso.{
  Cso, parse_header, decompress, or_else, pad, decode, read_at, read_entry, read_block,
}
use udpfsd.Compression.Cso.Encode.{
  Stored, plain, packed, body, flag, encode, nth, before-suc, before-bound,
}
use udpfsd.Compression.Cso.Opened.{
  AllSized, IsEncoding, entries, opened, parse_header-encode, entry_lem, read_at_lem, place_of,
  unit_of, unit_of-place, unit_of-small,
}

-- A block of at least n bytes: zeros are added to what is shorter.
abbrev pub filled : ℕ → List ℕ → List ℕ
filled zero out = out
filled (suc n) [] = 0 ∷ filled n []
filled (suc n) (x ∷ out) = x ∷ filled n out

abbrev pub first_of : Option (List ℕ) → Option (List ℕ) → Option (List ℕ)
first_of (some out) other = some out
first_of none other = other

abbrev pub fill_block : ℕ → Option (List ℕ) → Option (List ℕ)
fill_block n none = none
fill_block n (some out) = some (filled n out)

-- What a stored block holds
abbrev pub content :
    (List ℕ → Option (List ℕ)) → (List ℕ → Option (List ℕ)) → ℕ → Stored → Option (List ℕ)
content inflate unzlib block_size (plain b) = some b
content inflate unzlib block_size (packed z) =
    fill_block block_size (first_of (inflate z) (unzlib z))

pad-filled : (n : ℕ) (out : List ℕ) → pad n out ≡ filled n out
unfolding pad
pad-filled zero [] = refl
pad-filled zero (x ∷ out) =
    let e : 0 - suc (length out) ≡ 0 = omega arith in rw e (append-nil (x ∷ out))
pad-filled (suc n) [] =
    let e : suc n - 0 ≡ suc (n - 0) = omega arith in rw e (ap (λ l. 0 ∷ l) (pad-filled n []))
pad-filled (suc n) (x ∷ out) =
    let e : suc n - suc (length out) ≡ n - length out = omega arith in
    rw e (ap (λ l. x ∷ l) (pad-filled n out))

or_else-fill_block : (n : ℕ) (a b : Option (List ℕ)) → or_else n a b ≡ fill_block n (first_of a b)
unfolding or_else
or_else-fill_block n (some out) b = ap (λ l. some l) (pad-filled n out)
or_else-fill_block n none (some out) = ap (λ l. some l) (pad-filled n out)
or_else-fill_block n none none = refl

sized-nth :
    (n : ℕ) (ss : List Stored) (k : ℕ) (b : List ℕ)
    → AllSized n ss
    → k < length ss
    → nth ss k ≡ plain b
    → length b ≡ n
sized-nth n [] k b i h e = absurd (omega arith)
sized-nth n (plain c ∷ ss) zero b i h e = ap (λ s. length (body s)) (sym e) ∙ i.0
sized-nth n (packed z ∷ ss) zero b i h e = absurd (cc)
sized-nth n (plain c ∷ ss) (suc k) b i h e = sized-nth n ss k b i.1 (omega arith) e
sized-nth n (packed z ∷ ss) (suc k) b i h e = sized-nth n ss k b i (omega arith) e

Stored-cases : (s : Stored) → ((b : List ℕ) × (s ≡ plain b)) ⊎ ((z : List ℕ) × (s ≡ packed z))
Stored-cases (plain b) = inl (b, refl)
Stored-cases (packed z) = inr (z, refl)

flag_above : (s : Stored) (p : ℕ) → p < 2 ^ 31 → (p + flag s) % 2 ^ 31 ≡ p
flag_above (plain b) p h = omega arith
flag_above (packed z) p h = omega arith

module _ (inflate unzlib : List ℕ → Option (List ℕ)) where
  read_entry-plain :
      (c : Cso) (raw next unit pos : ℕ)
      → raw ≡ unit + 2 ^ 31
      → unit < 2 ^ 31
      → unit * 2 ^ c.align ≡ pos
      → pos < 2 ^ 47
      → read_entry inflate unzlib c raw next ≡ read_at inflate unzlib c true pos c.block_size
  unfolding read_entry
  read_entry-plain c raw next unit pos e small p low =
      let t : (raw / 2 ^ 31 % 2 == 1) ≡ true = ground arith in
      let u : raw % 2 ^ 31 ≡ unit = omega arith in
      let o : u64 (raw % 2 ^ 31 * 2 ^ c.align) ≡ pos =
        ap (λ x. u64 (x * 2 ^ c.align)) u ∙ ap u64 p ∙ omega (arith, low) in
      rw t (rw o refl)

  read_entry-packed :
      (c : Cso) (raw next unit pos after n : ℕ)
      → raw ≡ unit
      → unit < 2 ^ 31
      → unit * 2 ^ c.align ≡ pos
      → pos < 2 ^ 47
      → next % 2 ^ 31 ≡ after
      → after * 2 ^ c.align ≡ pos + n
      → pos + n < 2 ^ 47
      → read_entry inflate unzlib c raw next ≡ read_at inflate unzlib c false pos n
  unfolding read_entry
  read_entry-packed c raw next unit pos after n e small p low f q high =
      let t : (raw / 2 ^ 31 % 2 == 1) ≡ false = ground arith in
      let u : raw % 2 ^ 31 ≡ unit = omega arith in
      let o : u64 (raw % 2 ^ 31 * 2 ^ c.align) ≡ pos =
        ap (λ x. u64 (x * 2 ^ c.align)) u ∙ ap u64 p ∙ omega (arith, low) in
      let m : u64 (next % 2 ^ 31 * 2 ^ c.align) ≡ pos + n =
        ap (λ x. u64 (x * 2 ^ c.align)) f ∙ ap u64 q ∙ omega (arith, high) in
      let l : u64 (pos + n + 2 ^ 64 - pos) ≡ n = omega (arith, high) in
      rw t (rw o (rw m (rw l refl)))

  plain_read :
      (size block_size align : ℕ) (gap : List ℕ) (blocks : List Stored) (k : ℕ) (b : List ℕ)
      → IsEncoding size block_size align gap blocks
      → k < length blocks
      → nth blocks k ≡ plain b
      → read_entry inflate unzlib
          (opened size block_size align gap blocks)
          (get_u32 (entries align gap blocks) (k * 4))
          (get_u32 (entries align gap blocks) ((k + 1) * 4))
        ≡ ok (some b)
  unfolding decode
  plain_read size block_size align gap blocks k b i h s =
      let at = place_of size block_size align gap blocks i k in
      let unit = unit_of size block_size align gap blocks i k in
      let e =
        entry_lem size block_size align gap blocks i k (omega arith) ∙ ap (λ x. unit + flag x) s in
      read_entry-plain (opened size block_size align gap blocks) _ _ unit at e
        (unit_of-small size block_size align gap blocks i k)
        (unit_of-place size block_size align gap blocks i k)
        (omega (arith, i.small, before-bound blocks k))
      ∙ (read_at_lem size block_size align gap blocks i inflate unzlib true k block_size h
            (sym (ap (λ x. length (body x)) s ∙ sized-nth block_size blocks k b i.sized h s))
          ∙ ap (λ x. ok (some (body x))) s)

  packed_read :
      (size block_size align : ℕ) (gap : List ℕ) (blocks : List Stored) (k : ℕ) (z : List ℕ)
      → IsEncoding size block_size align gap blocks
      → k < length blocks
      → nth blocks k ≡ packed z
      → read_entry inflate unzlib
          (opened size block_size align gap blocks)
          (get_u32 (entries align gap blocks) (k * 4))
          (get_u32 (entries align gap blocks) ((k + 1) * 4))
        ≡ ok (decompress inflate unzlib block_size z)
  unfolding decode
  packed_read size block_size align gap blocks k z i h s =
      let n = length (body (nth blocks k)) in
      let at = place_of size block_size align gap blocks i k in
      let unit = unit_of size block_size align gap blocks i k in
      let after = unit_of size block_size align gap blocks i (k + 1) in
      let e =
        entry_lem size block_size align gap blocks i k (omega arith) ∙ ap (λ x. unit + flag x) s in
      let g = before-suc blocks k h in
      let p = before-bound blocks (k + 1) in
      let f =
        ap (λ x. x % 2 ^ 31) (entry_lem size block_size align gap blocks i (k + 1) (omega arith))
        ∙ flag_above (nth blocks (k + 1)) after
            (unit_of-small size block_size align gap blocks i (k + 1)) in
      read_entry-packed (opened size block_size align gap blocks) _ _ unit at after n
        (e ∙ omega arith) (unit_of-small size block_size align gap blocks i k)
        (unit_of-place size block_size align gap blocks i k)
        (omega (arith, i.small, before-bound blocks k)) f
        (unit_of-place size block_size align gap blocks i (k + 1) ∙ omega (arith, g))
        (omega (arith, i.small, g, p))
      ∙ (read_at_lem size block_size align gap blocks i inflate unzlib false k n h refl
          ∙ ap (λ x. ok (decompress inflate unzlib block_size (body x))) s)

  pub block_read :
      (size block_size align : ℕ) (gap : List ℕ) (blocks : List Stored) (k : ℕ)
      → IsEncoding size block_size align gap blocks
      → k < length blocks
      → read_block inflate unzlib (opened size block_size align gap blocks) k
        ≡ ok (content inflate unzlib block_size (nth blocks k))
  unfolding read_block decompress
  block_read size block_size align gap blocks k i h =
      let t : (leb (2 ^ 63) (length blocks) || leb (length blocks) k) ≡ false =
        ground (arith, i.small) in
      rw t (elim (Stored-cases (nth blocks k)) [
        | inl (b, s) ↦
            plain_read size block_size align gap blocks k b i h s
            ∙ ap (λ x. ok (content inflate unzlib block_size x)) (sym s)
        | inr (z, s) ↦
            packed_read size block_size align gap blocks k z i h s
            ∙ ap (λ x. ok x) (or_else-fill_block block_size (inflate z) (unzlib z))
            ∙ ap (λ x. ok (content inflate unzlib block_size x)) (sym s)
      ])

  -- An image of fewer than 2^47 bytes, with its blocks one after the other at whole units of 2 ^ align bytes,
  -- fewer than 2^31 of them, and as many blocks as the size needs, of which those that are not compressed
  -- have the size of a block: it is opened, and each block reads as what was stored, or as the
  -- decompressed bytes filled up with zeros, or is an error where both decompressors have one.
  pub read_block-encode :
      (size block_size align : ℕ) (gap : List ℕ) (blocks : List Stored) (k : ℕ)
      → IsEncoding size block_size align gap blocks
      → k < length blocks
      → (c : Cso) × (parse_header (encode size block_size align gap blocks) ≡ ok (some c))
        × (read_block inflate unzlib c k ≡ ok (content inflate unzlib block_size (nth blocks k)))
  read_block-encode size block_size align gap blocks k i h = (
    opened size block_size align gap blocks,
    parse_header-encode size block_size align gap blocks i,
    block_read size block_size align gap blocks k i h,
  )
