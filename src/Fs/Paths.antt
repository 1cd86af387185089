-- ===== src/Fs/Paths.antt =====
-- internal/fs/utils.go: resolvePath, on a system whose separator is the slash, with the parts of the packages
-- strings and path/filepath that it uses. The root is absolute, as NewBackend makes it, so that Abs only
-- cleans.
pub mod Confined
use udpfsd.Common.{
  ℕ, ◌==◌, ◌&&◌, ◌||◌, Bool, true, false, not, Option, none, some, List, [], ◌∷◌, ◌++◌, map,
  if◌then◌else◌, same_name,
}
use mathlib.Core.List.{reverse}

abbrev pub slash : ℕ
slash = 47

abbrev pub backslash : ℕ
backslash = 92

abbrev pub dot : List ℕ
dot = 46 ∷ []

abbrev pub dot_dot : List ℕ
dot_dot = 46 ∷ 46 ∷ []

-- strings.TrimLeft(p, "/\\")
abbrev pub trim_left : List ℕ → List ℕ
trim_left [] = []
trim_left (x ∷ xs) =
    let rest = trim_left xs in if (x == slash) || (x == backslash) then rest else x ∷ xs

-- strings.ReplaceAll(p, "\\", "/")
abbrev pub to_slash : List ℕ → List ℕ
to_slash p = map (λ x. if x == backslash then slash else x) p

abbrev pub add_to_first : ℕ → List (List ℕ) → List (List ℕ)
add_to_first x [] = (x ∷ []) ∷ []
add_to_first x (c ∷ cs) = (x ∷ c) ∷ cs

-- The elements of a path, with the empty ones between two slashes
abbrev pub split : List ℕ → List (List ℕ)
split [] = [] ∷ []
split (x ∷ xs) = let rest = split xs in if x == slash then [] ∷ rest else add_to_first x rest

abbrev pub join : List (List ℕ) → List ℕ
join [] = []
join (c ∷ []) = c
join (c ∷ d ∷ cs) = c ++ (slash ∷ join (d ∷ cs))

-- The element before `..` is taken away; at the root there is none.
abbrev pub step_back : Bool → List (List ℕ) → List (List ℕ)
step_back true [] = []
step_back false [] = dot_dot ∷ []
step_back rooted (c ∷ cs) = if not rooted && same_name c dot_dot then dot_dot ∷ c ∷ cs else cs

-- An element after those of `done`, which are last first
abbrev pub push : Bool → List ℕ → List (List ℕ) → List (List ℕ)
push rooted c done =
    if same_name c [] || same_name c dot
    then done
    else if same_name c dot_dot
    then step_back rooted done
    else c ∷ done

abbrev pub push_all : Bool → List (List ℕ) → List (List ℕ) → List (List ℕ)
push_all rooted [] done = done
push_all rooted (c ∷ cs) done = push_all rooted cs (push rooted c done)

abbrev pub is_rooted : List ℕ → Bool
is_rooted [] = false
is_rooted (x ∷ xs) = x == slash

abbrev pub or_dot : List ℕ → List ℕ
or_dot [] = dot
or_dot (x ∷ xs) = x ∷ xs

-- filepath.Clean
unfoldable pub clean : List ℕ → List ℕ
clean p =
    let elements = reverse (push_all (is_rooted p) (split p) []) in
    if is_rooted p then slash ∷ join elements else or_dot (join elements)

-- strings.TrimSuffix(p, "/")
abbrev pub trim_slash : List ℕ → List ℕ
trim_slash [] = []
trim_slash (x ∷ []) = if x == slash then [] else x ∷ []
trim_slash (x ∷ y ∷ xs) = x ∷ trim_slash (y ∷ xs)

-- strings.HasPrefix(p, prefix)
abbrev pub has_prefix : List ℕ → List ℕ → Bool
has_prefix p [] = true
has_prefix [] (y ∷ ys) = false
has_prefix (x ∷ xs) (y ∷ ys) = (x == y) && has_prefix xs ys

-- The test that a path is under the root
unfoldable pub is_under : List ℕ → List ℕ → Bool
is_under root resolved =
    has_prefix resolved (trim_slash (clean root) ++ (slash ∷ [])) || same_name resolved (clean root)

unfoldable pub within_root : List ℕ → List ℕ → Option (List ℕ)
within_root root resolved = if is_under root resolved then some resolved else none

-- A path of the client, below the root; none where there is no root, or where it leads out of it
unfoldable pub resolve_path : List ℕ → List ℕ → Option (List ℕ)
resolve_path [] client = none
resolve_path (x ∷ xs) client =
    within_root (x ∷ xs) (clean (clean ((x ∷ xs) ++ (slash ∷ clean (to_slash (trim_left client))))))
