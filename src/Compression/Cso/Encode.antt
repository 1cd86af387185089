-- ===== src/Compression/Cso/Encode.antt =====
-- internal/fs/compression/cso/cso.go: an image as its blocks, stored as they are or compressed.
use native.Mathlib.Nat.{one-le-pow, le-div_iff_mul-le, div-mul-le_self}
use udpfsd.Common.{
  ◌∙◌, subst, ℕ, zero, suc, ◌+◌, ◌*◌, ◌/◌, ◌%◌, ◌^◌, ◌≤◌, ◌<◌, ◌≡◌, refl, ap, arith, List, [], ◌∷◌,
  ◌++◌, length, length-append, take, drop, get_or, put_u32, get_u32, byte_at,
}
use udpfsd.Udpfs.Requests.Parsing.{word, take-append}
use udpfsd.Compression.Cso.{cso_magic}

pub data Stored : Type 0 where
  plain packed : List ℕ → Stored

abbrev pub body : Stored → List ℕ
body (plain b) = b
body (packed z) = z

abbrev pub flag : Stored → ℕ
flag (plain b) = 2 ^ 31
flag (packed z) = 0

-- The offsets of the blocks, in units of 2 ^ align bytes, with the flag of those that are not compressed,
-- and the end
abbrev pub offsets_from : ℕ → ℕ → List Stored → List ℕ
offsets_from align start [] = start / 2 ^ align ∷ []
offsets_from align start (s ∷ ss) =
    (start / 2 ^ align + flag s) ∷ offsets_from align (start + length (body s)) ss

abbrev pub table : List ℕ → List ℕ
table [] = []
table (o ∷ os) = put_u32 o ++ table os

abbrev pub bodies : List Stored → List ℕ
bodies [] = []
bodies (s ∷ ss) = body s ++ bodies ss

-- Where the blocks begin, behind what lies between them and the table
abbrev pub start_of : List ℕ → List Stored → ℕ
start_of gap blocks = 24 + (length blocks + 1) * 4 + length gap

abbrev pub header : ℕ → ℕ → ℕ → List ℕ
header size block_size align =
    cso_magic
    ++ (put_u32 24
        ++ (put_u32 (size % 2 ^ 32)
            ++ (put_u32 (size / 2 ^ 32) ++ (put_u32 block_size ++ (1 ∷ align ∷ 0 ∷ 0 ∷ [])))))

abbrev pub encode : ℕ → ℕ → ℕ → List ℕ → List Stored → List ℕ
encode size block_size align gap blocks =
    header size block_size align
    ++ (table (offsets_from align (start_of gap blocks) blocks) ++ (gap ++ bodies blocks))

pub length-table : (os : List ℕ) → length (table os) ≡ length os * 4
length-table [] = refl
length-table (o ∷ os) = omega (arith, length-table os)

pub length-offsets_from :
    (align start : ℕ) (ss : List Stored) → length (offsets_from align start ss) ≡ length ss + 1
length-offsets_from align start [] = refl
length-offsets_from align start (s ∷ ss) =
    omega (arith, length-offsets_from align (start + length (body s)) ss)

abbrev pub AllWords : List ℕ → Type 0
AllWords [] = Unit
AllWords (o ∷ os) = (o < 2 ^ 32) × AllWords os

past4 :
    (o : ℕ) (os : List ℕ) (j k : ℕ) → j ≡ k + 4 → byte_at (table (o ∷ os)) j ≡ byte_at (table os) k
past4 o os j k p = let e : j ≡ suc (suc (suc (suc k))) = omega (arith, p) in rw e refl

-- An entry of the table
pub table-entry :
    (os : List ℕ) (i : ℕ) → AllWords os → i < length os → get_u32 (table os) (i * 4) ≡ get_or os i 0
table-entry [] i w h = absurd (omega arith)
table-entry (o ∷ os) zero w h = word o w.0
table-entry (o ∷ os) (suc i) w h = omega (
  arith,
  past4 o os (suc i * 4) (i * 4) (omega arith),
  past4 o os (suc i * 4 + 1) (i * 4 + 1) (omega arith),
  past4 o os (suc i * 4 + 2) (i * 4 + 2) (omega arith),
  past4 o os (suc i * 4 + 3) (i * 4 + 3) (omega arith),
  table-entry os i w.1 (omega arith),
)

-- The bytes of the blocks before the i-th
abbrev pub before : ℕ → List Stored → ℕ
before zero ss = 0
before (suc i) [] = 0
before (suc i) (s ∷ ss) = length (body s) + before i ss

-- The i-th block; there is none behind the last.
abbrev pub nth : List Stored → ℕ → Stored
nth ss i = get_or ss i (packed [])

pub offsets_from-entry :
    (align start : ℕ) (ss : List Stored) (i : ℕ)
    → i ≤ length ss
    → get_or (offsets_from align start ss) i 0 ≡ (start + before i ss) / 2 ^ align + flag (nth ss i)
offsets_from-entry align start [] zero h =
    let e : start + 0 ≡ start = omega arith in rw e (omega arith)
offsets_from-entry align start [] (suc i) h = absurd (omega arith)
offsets_from-entry align start (s ∷ ss) zero h =
    let e : start + 0 ≡ start = omega arith in rw e refl
offsets_from-entry align start (s ∷ ss) (suc i) h =
    offsets_from-entry align (start + length (body s)) ss i (omega arith)
    ∙ ap (λ p. p / 2 ^ align + flag (nth ss i)) (omega arith)

flag_small : (s : Stored) → flag s ≤ 2 ^ 31
flag_small (plain b) = omega arith
flag_small (packed z) = omega arith

pub two_pow-positive : (k : ℕ) → 0 < 2 ^ k
two_pow-positive k = one-le-pow k 2 (omega arith)

pub div_mono : (a b k : ℕ) → a ≤ b → a / 2 ^ k ≤ b / 2 ^ k
div_mono a b k h =
    (le-div_iff_mul-le (two_pow-positive k)).1 (omega (arith, div-mul-le_self a (2 ^ k)))

pub offsets_from-AllWords :
    (align start : ℕ) (ss : List Stored)
    → (start + length (bodies ss)) / 2 ^ align < 2 ^ 31
    → AllWords (offsets_from align start ss)
offsets_from-AllWords align start [] h =
    let e : start + 0 ≡ start = omega arith in (omega (arith, ap (λ p. p / 2 ^ align) e, h), tt)
offsets_from-AllWords align start (s ∷ ss) h =
    let e = length-append (body s) (bodies ss) in
    let le = div_mono start (start + length (body s ++ bodies ss)) align (omega arith) in
    (
      omega (arith, flag_small s, le),
      offsets_from-AllWords align (start + length (body s)) ss
          (subst (λ p. p / 2 ^ align < 2 ^ 31) (omega (arith, e)) h),
    )

-- A number of whole units
abbrev pub IsMultiple : ℕ → ℕ → Type 0
IsMultiple m n = (q : ℕ) × (n ≡ q * m)

abbrev pub AllAligned : ℕ → List Stored → Type 0
AllAligned align [] = Unit
AllAligned align (s ∷ ss) = IsMultiple (2 ^ align) (length (body s)) × AllAligned align ss

pub before-IsMultiple :
    (align : ℕ) (ss : List Stored) (i : ℕ)
    → AllAligned align ss
    → IsMultiple (2 ^ align) (before i ss)
before-IsMultiple align ss zero a = (0, omega arith)
before-IsMultiple align [] (suc i) a = (0, omega arith)
before-IsMultiple align (s ∷ ss) (suc i) a =
    let r = before-IsMultiple align ss i a.1 in (a.0.0 + r.0, omega (arith, a.0.1, r.1))

pub drop-past : (a b : List ℕ) (k : ℕ) → drop (length a + k) (a ++ b) ≡ drop k b
drop-past [] b k = ap (λ n. drop n b) (omega arith)
drop-past (x ∷ a) b k =
    let e : length (x ∷ a) + k ≡ suc (length a + k) = omega arith in rw e (drop-past a b k)

pub bodies-nth :
    (ss : List Stored) (i : ℕ)
    → i < length ss
    → take (length (body (nth ss i))) (drop (before i ss) (bodies ss)) ≡ body (nth ss i)
bodies-nth [] i h = absurd (omega arith)
bodies-nth (s ∷ ss) zero h = take-append (body s) (bodies ss)
bodies-nth (s ∷ ss) (suc i) h =
    rw (drop-past (body s) (bodies ss) (before i ss)) (bodies-nth ss i (omega arith))

pub before-suc :
    (ss : List Stored) (i : ℕ)
    → i < length ss
    → before (i + 1) ss ≡ before i ss + length (body (nth ss i))
before-suc [] i h = absurd (omega arith)
before-suc (s ∷ ss) zero h = omega arith
before-suc (s ∷ ss) (suc i) h =
    let e : suc i + 1 ≡ suc (i + 1) = omega arith in
    rw e (omega (arith, before-suc ss i (omega arith)))

pub before-bound : (ss : List Stored) (i : ℕ) → before i ss ≤ length (bodies ss)
before-bound ss zero = omega arith
before-bound [] (suc i) = omega arith
before-bound (s ∷ ss) (suc i) = omega (arith, before-bound ss i, length-append (body s) (bodies ss))
