-- ===== src/Compression/Reader/Pieces.antt =====
-- internal/fs/compression/reader.go: the pieces that Read takes from the blocks.
use udpfsd.Common.{
  ℕ, zero, suc, ◌+◌, ◌-◌, ◌≤◌, ◌≡◌, refl, ap, ◌∙◌, arith, List, [], ◌∷◌, ◌++◌, length, take, drop,
}

-- A beginning of a list is the same in a longer one.
take_prefix :
    (t bs : ℕ) (xs pad : List ℕ) → t ≤ bs → t ≤ length xs → take t (take bs xs ++ pad) ≡ take t xs
take_prefix zero bs xs pad h k = refl
take_prefix (suc t) zero xs pad h k = absurd (omega arith)
take_prefix (suc t) (suc bs) [] pad h k = absurd (omega arith)
take_prefix (suc t) (suc bs) (x ∷ xs) pad h k =
    ap (λ r. x ∷ r) (take_prefix t bs xs pad (omega arith) (omega arith))

pub piece :
    (o t bs : ℕ) (xs pad : List ℕ)
    → o + t ≤ bs
    → o + t ≤ length xs
    → take t (drop o (take bs xs ++ pad)) ≡ take t (drop o xs)
piece zero t bs xs pad h k = take_prefix t bs xs pad (omega arith) (omega arith)
piece (suc o) zero bs xs pad h k = refl
piece (suc o) (suc t) zero xs pad h k = absurd (omega arith)
piece (suc o) (suc t) (suc bs) [] pad h k = absurd (omega arith)
piece (suc o) (suc t) (suc bs) (x ∷ xs) pad h k =
    piece o (suc t) bs xs pad (omega arith) (omega arith)

-- What is taken in two parts
pub take_parts : (t n : ℕ) (xs : List ℕ) → t ≤ n → take t xs ++ take (n - t) (drop t xs) ≡ take n xs
take_parts zero n xs h = ap (λ k. take k xs) (omega arith)
take_parts (suc t) zero xs h = absurd (omega arith)
take_parts (suc t) (suc n) [] h = take_nil (suc n - suc t)
  where
    take_nil : (k : ℕ) → take {A = ℕ} k [] ≡ []
    take_nil zero = refl
    take_nil (suc k) = refl
take_parts (suc t) (suc n) (x ∷ xs) h =
    ap (λ r. x ∷ r)
      (ap (λ k. take t xs ++ take k (drop t xs)) (omega arith) ∙ take_parts t n xs (omega arith))
