-- ===== src/Compression/Cache.antt =====
-- internal/fs/compression/cache.go: blockCache. The map `data` is an association list, in which the
-- first entry of a key counts and a stored key replaces the entries before; `order` has the key that
-- was used least lately first. The lock is held over each operation.
pub mod Order
pub mod Eviction
use udpfsd.Common.{
  ℕ, zero, suc, Bool, true, false, Option, none, some, List, [], ◌∷◌, ◌++◌, ltb, leb, ◌==◌,
  if◌then◌else◌, length,
}

pub record BlockCache : Type 0 where
  pub entries : List (ℕ × List ℕ)
  pub order : List ℕ
  pub max : ℕ

unfoldable pub new_block_cache : ℕ → BlockCache
new_block_cache max_blocks = record { entries = []; order = []; max = max_blocks }

-- c.data[idx]
unfoldable pub look_up : ℕ → List (ℕ × List ℕ) → Option (List ℕ)
look_up idx [] = none
look_up idx ((k, b) ∷ rest) = let later = look_up idx rest in if k == idx then some b else later

-- delete(c.data, idx)
unfoldable pub delete : ℕ → List (ℕ × List ℕ) → List (ℕ × List ℕ)
delete idx [] = []
delete idx ((k, b) ∷ rest) =
    let others = delete idx rest in if k == idx then others else ((k, b) ∷ others)

-- c.order without the first `idx`
unfoldable pub without : ℕ → List ℕ → List ℕ
without idx [] = []
without idx (k ∷ rest) = let others = without idx rest in if k == idx then rest else (k ∷ others)

unfoldable pub contains : ℕ → List ℕ → Bool
contains idx [] = false
contains idx (k ∷ rest) = let later = contains idx rest in if k == idx then true else later

-- The loop of `get`: a key that is found moves to the end.
unfoldable pub move_to_end : ℕ → List ℕ → List ℕ
move_to_end idx order = if contains idx order then without idx order ++ (idx ∷ []) else order

unfoldable pub get : ℕ → BlockCache → Option (List ℕ) × BlockCache
get idx c = elim (look_up idx c.entries) [
  | none ↦ (none, c)
  | some b ↦ (some b, record c { order = move_to_end idx c.order })
]

-- The loop of `put`, which evicts keys from the front of the order
unfoldable pub evict : ℕ → List ℕ → List (ℕ × List ℕ) → List ℕ × List (ℕ × List ℕ)
evict max [] entries = ([], entries)
evict max (k ∷ order) entries =
    let rest = evict max order (delete k entries) in
    if leb max (length entries) then rest else (k ∷ order, entries)

unfoldable pub put : ℕ → List ℕ → BlockCache → BlockCache
put idx b c =
    let left = evict c.max c.order c.entries in
    record c { order = left.0 ++ (idx ∷ []); entries = (idx, b) ∷ delete idx left.1 }
