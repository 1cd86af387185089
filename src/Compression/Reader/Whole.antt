-- ===== src/Compression/Reader/Whole.antt =====
-- internal/fs/compression/reader.go: a whole call of Read.
use udpfsd.Common.{
  ℕ, zero, suc, ◌+◌, ◌-◌, ◌<◌, ◌≤◌, ◌≡◌, inl, inr, refl, sym, ap, ◌∙◌, subst, arith, List, [], ◌++◌,
  if◌then◌else◌, ltb, take, drop, length-drop, drop-drop, append_assoc, append-nil, Bool-cases,
  Returns, Returns-ok, Returns-imp, ltb→lt, ok, min, take_all,
}
use udpfsd.Compression.Reader.{
  CachedReader, ReadResult, no_error, Loop, read_round, read_loop, read, signed_leb,
}
use udpfsd.Compression.Reader.Pieces.{take_parts}
use udpfsd.Compression.Reader.Image.{Gives, IsAt, after_round, if_false, read_round-Advances}

read_round-zero :
    (got : List ℕ) (c : CachedReader) (loop : Loop)
    → read_round 0 got c loop ≡ ok (record { bytes = got; error = no_error }, c)
unfolding read_round
read_round-zero got c loop = refl

Gives-zero :
    (image got : List ℕ) (c : CachedReader)
    → IsAt image c.pos c
    → Gives image (got ++ []) (c.pos + 0) (record { bytes = got; error = no_error }, c)
Gives-zero image got c a = record {
  bytes = sym (append-nil got);
  fine = refl;
  after = record { reader = a.reader; is_image = a.is_image; position = omega arith };
}

-- The bytes of a round and those of the rest are the bytes wanted.
two_parts :
    (image got : List ℕ) (n t pos pos2 : ℕ)
    → t ≤ n
    → pos2 ≡ pos + t
    → (got ++ take t (drop pos image)) ++ take (n - t) (drop pos2 image)
      ≡ got ++ take n (drop pos image)
two_parts image got n t pos pos2 h e =
    append_assoc got (take t (drop pos image)) (take (n - t) (drop pos2 image))
    ∙ ap (λ x. got ++ x)
        (ap (λ x. take t (drop pos image) ++ take (n - t) x)
            (ap (λ k. drop k image) e ∙ sym (drop-drop t pos image))
          ∙ take_parts t n (drop pos image) h)

Gives-same :
    {image want other : List ℕ} {p q : ℕ} {r : ReadResult × CachedReader}
    → want ≡ other
    → p ≡ q
    → Gives image want p r
    → Gives image other q r
Gives-same e f g = record {
  bytes = g.bytes ∙ e;
  fine = g.fine;
  after = record {
    reader = g.after.reader;
    is_image = g.after.is_image;
    position = g.after.position ∙ f;
  };
}

read_loop-Gives :
    (image : List ℕ) (fuel n : ℕ) (got : List ℕ) (c : CachedReader)
    → IsAt image c.pos c
    → n < fuel
    → c.pos + n ≤ c.size
    → Returns (Gives image (got ++ take n (drop c.pos image)) (c.pos + n)) (read_loop fuel n got c)
unfolding read_loop
read_loop-Gives image zero n got c a h k = absurd (omega arith)
read_loop-Gives image (suc fuel) zero got c a h k =
    subst (λ o. Returns (Gives image (got ++ []) (c.pos + 0)) o)
      (sym (read_round-zero got c (read_loop fuel))) (Returns-ok _ (Gives-zero image got c a))
read_loop-Gives image (suc fuel) (suc n) got c a h k =
    let r =
      read_round-Advances image (suc n) got c (read_loop fuel) a (omega arith) (omega arith) in
    let c2 : CachedReader = after_round r.count c in
    let here : IsAt image c2.pos c2 = record {
      reader = r.after.reader;
      is_image = r.after.is_image;
      position = refl;
    } in
    let rest =
      read_loop-Gives image fuel (suc n - r.count) (got ++ take r.count (drop c.pos image)) c2 here
        (omega (arith, r.some_read))
        (omega (arith, r.after.position, r.after.is_image.size, a.is_image.size, r.not_more)) in
    subst (λ o. Returns (Gives image (got ++ take (suc n) (drop c.pos image)) (c.pos + suc n)) o)
      (sym r.result)
      (Returns-imp
        (λ o g.
          Gives-same (two_parts image got (suc n) r.count c.pos c2.pos r.not_more r.after.position)
            (omega (arith, r.after.position, r.not_more)) g)
        rest)

-- `Read` of `n` bytes at a position in the image, through the cache: it does not panic and has no
-- error, its bytes are the next bytes of the image, `n` of them or all that are left, and the position
-- moves on by as many.
pub read-Gives :
    (image : List ℕ) (n : ℕ) (c : CachedReader)
    → IsAt image c.pos c
    → c.pos < c.size
    → Returns (Gives image (take n (drop c.pos image)) (min (c.pos + n) c.size)) (read n c)
unfolding read signed_leb
read-Gives image n c a inside =
    subst (λ o. Returns (Gives image (take n (drop c.pos image)) (min (c.pos + n) c.size)) o)
      (sym (if_false {b = signed_leb c.size c.pos} _ _ (ground (arith, inside, a.is_image.fits))))
      (Returns-imp (λ o g. Gives-same (cut n) (ground (arith, inside)) g)
        (read_loop-Gives image (most + 1) most [] c a (omega arith) (ground (arith, inside))))
  where
    most : ℕ
    most = if ltb (c.size - c.pos) n then c.size - c.pos else n

    cut :
        (m : ℕ)
        → take (if ltb (c.size - c.pos) m then c.size - c.pos else m) (drop c.pos image)
          ≡ take m (drop c.pos image)
    cut m = elim (Bool-cases (ltb (c.size - c.pos) m)) [
      | inr fits ↦ rw fits
      | inl over ↦
          let left = length-drop c.pos image in
          rw over (
            take_all (c.size - c.pos) (drop c.pos image) (omega (arith, left, a.is_image.size))
            ∙ sym (
                take_all m (drop c.pos image)
                  (omega (arith, left, a.is_image.size, ltb→lt (c.size - c.pos) m over))))
    ]
