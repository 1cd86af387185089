-- ===== src/Compression/Reader/Places.antt =====
-- internal/fs/compression/reader.go: how much of a block lies behind a position.
use native.Mathlib.Nat.{div-add-mod', mod-lt, mul-le-mul_right}
use udpfsd.Common.{
  ℕ, suc, ◌+◌, ◌*◌, ◌/◌, ◌%◌, ◌<◌, ◌≤◌, ◌≡◌, subst, inl, inr, arith, lt_or_le, if◌then◌else◌, ◌==◌,
  ◌&&◌, not,
}

-- The length of block `q` of `num`, where the last of them has `r` bytes if `r` is not 0
abbrev pub length_of : ℕ → ℕ → ℕ → ℕ → ℕ
length_of q num r bs = if (q + 1 == num) && not (r == 0) then r else bs

next_block : (bs p q : ℕ) → p < q → p * bs + bs ≤ q * bs
next_block bs p q h =
    let e : suc p * bs ≡ p * bs + bs = omega arith in
    let small : suc p ≤ q = omega arith in omega (arith, e, mul-le-mul_right bs small)

within :
    (bs q o s r pos size num : ℕ)
    → q * bs + o ≡ pos
    → o < bs
    → s * bs + r ≡ size
    → r < bs
    → num ≡ (if r == 0 then s else s + 1)
    → pos < size
    → (o < length_of q num r bs)
      × (length_of q num r bs ≤ bs)
      × (q * bs + length_of q num r bs ≤ size)
within bs q o s r pos size num a b c d e f = elim (lt_or_le q s) [
  | inl before ↦ let n = next_block bs q s before in ground (arith, n, a, b, c, d, e, f, before)
  | inr not_before ↦ elim (lt_or_le s q) [
    | inl after ↦ absurd (let n = next_block bs s q after in omega (arith, n, a, c, d, f))
    | inr here ↦
        let same : q ≡ s = omega arith in
        let products : q * bs ≡ s * bs = subst (λ x. q * bs ≡ x * bs) same (omega arith) in
        ground (arith, same, products, a, b, c, d, e, f)
  ]
]

-- A position in the data lies in its block before the block's end, and the block is part of the data.
pub place :
    (bs size num pos : ℕ)
    → 0 < bs
    → num ≡ (if size % bs == 0 then size / bs else size / bs + 1)
    → pos < size
    → (pos % bs < length_of (pos / bs) num (size % bs) bs)
      × (length_of (pos / bs) num (size % bs) bs ≤ bs)
      × (pos / bs * bs + length_of (pos / bs) num (size % bs) bs ≤ size)
place bs size num pos h e f =
    within bs (pos / bs) (pos % bs) (size / bs) (size % bs) pos size num (div-add-mod' pos bs)
      (mod-lt pos h) (div-add-mod' size bs) (mod-lt size h) e f
