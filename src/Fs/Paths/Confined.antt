-- ===== src/Fs/Paths/Confined.antt =====
-- internal/fs/utils.go: a resolved path lies below the root.
use udpfsd.Common.{
  ℕ, ◌==◌, ◌||◌, ◌≡◌, ◌≢◌, ◌⊎◌, inl, inr, refl, sym, ap, subst, arith, Bool, true, false, none,
  some, List, [], ◌∷◌, ◌++◌, if◌then◌else◌, same_name, same_name→eq, Bool-cases,
}
use mathlib.Core.List.{reverse, reverse-cons}
use mathlib.Core.Option.{some-injective}
use udpfsd.Fs.Paths.{
  slash, dot, dot_dot, add_to_first, split, join, step_back, push, push_all, is_rooted, clean,
  trim_slash, has_prefix, is_under, within_root, resolve_path, to_slash, trim_left,
}

abbrev pub NoSlash : List ℕ → Type 0
NoSlash [] = Unit
NoSlash (x ∷ xs) = (x ≢ slash) × NoSlash xs

-- A name: it has no slash, and is not empty, `.` or `..`.
pub record IsName (c : List ℕ) : Type 0 where
  pub no_slash : NoSlash c
  pub not_special : (same_name c [] || same_name c dot) || same_name c dot_dot ≡ false

abbrev pub AllNames : List (List ℕ) → Type 0
AllNames [] = Unit
AllNames (c ∷ cs) = IsName c × AllNames cs

abbrev AllNoSlash : List (List ℕ) → Type 0
AllNoSlash [] = Unit
AllNoSlash (c ∷ cs) = NoSlash c × AllNoSlash cs

add_to_first-NoSlash :
    (x : ℕ) (cs : List (List ℕ)) → x ≢ slash → AllNoSlash cs → AllNoSlash (add_to_first x cs)
add_to_first-NoSlash x [] h i = ((h, tt), tt)
add_to_first-NoSlash x (c ∷ cs) h i = ((h, i.0), i.1)

split-NoSlash : (p : List ℕ) → AllNoSlash (split p)
split-NoSlash [] = (tt, tt)
split-NoSlash (x ∷ xs) = elim (Bool-cases (x == slash)) [
  | inl e ↦ rw e (tt, split-NoSlash xs)
  | inr e ↦ rw e (add_to_first-NoSlash x (split xs) (ground arith) (split-NoSlash xs))
]

step_back-AllNames : (done : List (List ℕ)) → AllNames done → AllNames (step_back true done)
step_back-AllNames [] i = tt
step_back-AllNames (c ∷ cs) i = i.1

push-AllNames :
    (c : List ℕ) (done : List (List ℕ)) → NoSlash c → AllNames done → AllNames (push true c done)
push-AllNames c done s i = elim (Bool-cases (same_name c [] || same_name c dot)) [
  | inl e ↦ rw e i
  | inr e ↦ elim (Bool-cases (same_name c dot_dot)) [
    | inl f ↦ rw (e, f) (step_back-AllNames done i)
    | inr f ↦ rw (e, f) (record { no_slash = s; not_special = rw (e, f) refl }, i)
  ]
]

push_all-AllNames :
    (cs done : List (List ℕ)) → AllNoSlash cs → AllNames done → AllNames (push_all true cs done)
push_all-AllNames [] done s i = i
push_all-AllNames (c ∷ cs) done s i =
    push_all-AllNames cs (push true c done) s.1 (push-AllNames c done s.0 i)

AllNames-append : (cs ds : List (List ℕ)) → AllNames cs → AllNames ds → AllNames (cs ++ ds)
AllNames-append [] ds i j = j
AllNames-append (c ∷ cs) ds i j = (i.0, AllNames-append cs ds i.1 j)

reverse-AllNames : (cs : List (List ℕ)) → AllNames cs → AllNames (reverse cs)
reverse-AllNames [] i = tt
reverse-AllNames (c ∷ cs) i =
    rw (reverse-cons c cs)
      (AllNames-append (reverse cs) (c ∷ []) (reverse-AllNames cs i.1) (i.0, tt))

-- A path from the root of the file system, all of whose elements are names
pub record IsPlain (p : List ℕ) : Type 0 where
  pub names : List (List ℕ)
  pub is_path : p ≡ slash ∷ join names
  pub all_names : AllNames names

clean-IsPlain : (p : List ℕ) → is_rooted p ≡ true → IsPlain (clean p)
unfolding clean
clean-IsPlain p r = rw r (record {
  names = reverse (push_all true (split p) []);
  is_path = refl;
  all_names = reverse-AllNames _ (push_all-AllNames (split p) [] (split-NoSlash p) tt);
})

clean_rooted : (p : List ℕ) → is_rooted p ≡ true → is_rooted (clean p) ≡ true
unfolding clean
clean_rooted p r = rw r refl

has_prefix→append :
    (p prefix : List ℕ) → has_prefix p prefix ≡ true → (rest : List ℕ) × (p ≡ prefix ++ rest)
has_prefix→append p [] h = (p, refl)
has_prefix→append [] (y ∷ ys) h = absurd (cc)
has_prefix→append (x ∷ xs) (y ∷ ys) h =
    let e : x ≡ y = ground arith in
    let r = has_prefix→append xs ys (ground arith) in (r.0, rw e (ap (λ t. y ∷ t) r.1))

-- The root itself, or what is below it
abbrev pub Below : List ℕ → List ℕ → Type 0
Below root p =
    (p ≡ clean root) ⊎ ((rest : List ℕ) × (p ≡ (trim_slash (clean root) ++ (slash ∷ [])) ++ rest))

is_under→Below : (root p : List ℕ) → is_under root p ≡ true → Below root p
unfolding is_under
is_under→Below root p h =
    elim (Bool-cases (has_prefix p (trim_slash (clean root) ++ (slash ∷ [])))) [
      | inl e ↦ inr (has_prefix→append p _ e)
      | inr e ↦ inl (same_name→eq p (clean root) (ground arith))
    ]

kept : (b : Bool) (q p : List ℕ) → (if b then some q else none) ≡ some p → (b ≡ true) × (p ≡ q)
kept true q p e = (refl, sym (some-injective _ _ e))
kept false q p e = absurd (cc)

within_root-Below : (root q p : List ℕ) → within_root root q ≡ some p → (p ≡ q) × Below root p
unfolding within_root
within_root-Below root q p e =
    let k = kept (is_under root q) q p e in (k.1, is_under→Below root p (rw k.1 k.0))

-- A path of a client that is resolved at all, from a root that begins with a slash, is the cleaned root or
-- lies below it, and none of its elements is empty, `.` or `..`, or has a slash.
pub resolve_path-IsPlain :
    (xs client p : List ℕ)
    → resolve_path (slash ∷ xs) client ≡ some p
    → Below (slash ∷ xs) p × IsPlain p
unfolding resolve_path
resolve_path-IsPlain xs client p e =
    let joined = (slash ∷ xs) ++ (slash ∷ clean (to_slash (trim_left client))) in
    let w = within_root-Below (slash ∷ xs) (clean (clean joined)) p e in
    (w.1, subst IsPlain (sym w.0) (clean-IsPlain (clean joined) (clean_rooted joined refl)))
