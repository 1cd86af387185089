-- ===== src/Compression/Cache/Order.antt =====
-- internal/fs/compression/cache.go: the order lists each stored key once, and the cache does not grow
-- beyond its limit.
use udpfsd.Common.{
  ℕ, ◌≤◌, ◌≡◌, inl, inr, refl, ◌∙◌, arith, Bool, true, false, none, some, List, [], ◌∷◌, ◌++◌, ◌==◌,
  if◌then◌else◌, length, Bool-cases, ◌||◌,
}
use udpfsd.Compression.Cache.{BlockCache, look_up, delete, without, contains}

unfoldable pub stored : ℕ → List (ℕ × List ℕ) → Bool
stored k entries = elim (look_up k entries) [ none ↦ false | some b ↦ true ]

abbrev pub IsDistinct : List ℕ → Type 0
IsDistinct [] = Unit
IsDistinct (k ∷ rest) = (contains k rest ≡ false) × IsDistinct rest

-- The order lists the stored keys, each once.
pub record IsOrder (order : List ℕ) (entries : List (ℕ × List ℕ)) : Type 0 where
  pub same : (k : ℕ) → contains k order ≡ stored k entries
  pub distinct : IsDistinct order

pub record IsCache (c : BlockCache) : Type 0 where
  pub order : IsOrder c.order c.entries
  pub bounded : length c.entries ≤ c.max
  pub room : 1 ≤ c.max

pub stored-delete :
    (j k : ℕ) (entries : List (ℕ × List ℕ))
    → look_up j (delete k entries) ≡ (if j == k then none else look_up j entries)
unfolding look_up delete
stored-delete j k [] = ground arith
stored-delete j k ((i, b) ∷ rest) = ground (arith, stored-delete j k rest)

pub contains-append :
    (j : ℕ) (xs ys : List ℕ) → contains j (xs ++ ys) ≡ (contains j xs || contains j ys)
unfolding contains
contains-append j [] ys = refl
contains-append j (x ∷ xs) ys = ground (arith, contains-append j xs ys)

pub contains-without :
    (j k : ℕ) (xs : List ℕ)
    → IsDistinct xs
    → contains j (without k xs) ≡ (if j == k then false else contains j xs)
unfolding contains without
contains-without j k [] d = ground arith
contains-without j k (x ∷ xs) d = ground (arith, contains-without j k xs d.1, d.0)

pub IsDistinct-append :
    (xs : List ℕ) (k : ℕ) → IsDistinct xs → contains k xs ≡ false → IsDistinct (xs ++ (k ∷ []))
unfolding contains
IsDistinct-append [] k d h = (refl, tt)
IsDistinct-append (x ∷ xs) k d h = (
  contains-append x xs (k ∷ []) ∙ ground (arith, h, d.0),
  IsDistinct-append xs k d.1 (ground (arith, h)),
)

pub without-IsDistinct : (k : ℕ) (xs : List ℕ) → IsDistinct xs → IsDistinct (without k xs)
unfolding without
without-IsDistinct k [] d = tt
without-IsDistinct k (x ∷ xs) d = elim (Bool-cases (x == k)) [
  | inl here ↦ rw (without, here) d.1
  | inr other ↦
      rw (without, other)
        (contains-without x k xs d.1 ∙ ground (arith, d.0, other), without-IsDistinct k xs d.1)
]
