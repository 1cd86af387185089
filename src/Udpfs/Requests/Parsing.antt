-- ===== src/Udpfs/Requests/Parsing.antt =====
-- udpfs/handlers.go: the fields of a request read what was written.
use udpfsd.Common.{
  ℕ, bit_or, ◌+◌, ◌*◌, ◌/◌, ◌%◌, ◌^◌, ◌<◌, ◌≡◌, refl, ap, arith, some, List, [], ◌∷◌, ◌++◌, length,
  take, drop, u8, shr, shl, bit_or-shl,
}
use udpfsd.Udpfs.Requests.{index_of_zero, up_to, path_from}

abbrev pub NoZero : List ℕ → Type 0
NoZero [] = Unit
NoZero (x ∷ xs) = (0 < x) × NoZero xs

pub word :
    (n : ℕ)
    → n < 2 ^ 32
    → u8 n + u8 (shr n 8) * 2 ^ 8 + u8 (shr n 16) * 2 ^ 16 + u8 (shr n 24) * 2 ^ 24 ≡ n
word n h = omega arith

pub half : (n : ℕ) → n < 2 ^ 16 → u8 n + u8 (shr n 8) * 2 ^ 8 ≡ n
half n h = omega arith

index_of_zero-append :
    (path rest : List ℕ) → NoZero path → index_of_zero (path ++ (0 ∷ rest)) ≡ some (length path)
unfolding index_of_zero
index_of_zero-append [] rest h = refl
index_of_zero-append (x ∷ xs) rest h = ground (arith, index_of_zero-append xs rest h.1, h.0)

pub take-append : (path rest : List ℕ) → take (length path) (path ++ rest) ≡ path
take-append [] rest = refl
take-append (x ∷ xs) rest = ap (λ t. x ∷ t) (take-append xs rest)

-- A path with a zero behind it is read back, whatever follows.
pub path_from-append :
    (start : ℕ) (payload path rest : List ℕ)
    → drop start payload ≡ path ++ (0 ∷ rest)
    → NoZero path
    → path_from start payload ≡ path
unfolding path_from up_to
path_from-append start payload path rest e h =
    rw (e, index_of_zero-append path rest h) (take-append path (0 ∷ rest))

pub int64_lem : (n : ℕ) → n < 2 ^ 64 → bit_or (n % 2 ^ 32) (shl (n / 2 ^ 32) 32) ≡ n
int64_lem n h = omega (arith, bit_or-shl 32 (n % 2 ^ 32) (n / 2 ^ 32) (omega arith))
