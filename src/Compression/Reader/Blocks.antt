-- ===== src/Compression/Reader/Blocks.antt =====
-- internal/fs/compression/reader.go: the cache is not seen from outside.
use udpfsd.Common.{
  ℕ, ◌≡◌, ◌⊎◌, inl, inr, refl, sym, ap, ◌∙◌, subst, arith, Option, none, some, List, Option-cases,
}
use udpfsd.Compression.Cache.{BlockCache, look_up, get, put, new_block_cache}
use udpfsd.Compression.Cache.Order.{IsCache}
use udpfsd.Compression.Cache.Eviction.{put-IsCache, get-IsCache, put-look_up, empty-IsOrder}
use udpfsd.Compression.Reader.{BlockReader, CachedReader, new_cached_reader, fetch_block, get_block}

-- Every block in the cache is what the source reads.
abbrev pub IsTrue : CachedReader → Type 0
IsTrue c =
    (k : ℕ)
    → (look_up k c.cache.entries ≡ none) ⊎ (look_up k c.cache.entries ≡ c.source.read_block k)

pub record IsReader (c : CachedReader) : Type 0 where
  pub cache : IsCache c.cache
  pub coherent : IsTrue c

pub new_cached_reader-IsReader : (br : BlockReader) (n : ℕ) → IsReader (new_cached_reader br n)
unfolding new_cached_reader new_block_cache look_up
new_cached_reader-IsReader br n = record {
  cache = record { order = empty-IsOrder; bounded = omega arith; room = ground arith };
  coherent = λ k. inl refl;
}

-- What `getBlock` returns and leaves
pub record Reads (idx : ℕ) (c : CachedReader) (r : Option (List ℕ) × CachedReader) : Type 0 where
  pub answer : r.0 ≡ c.source.read_block idx
  pub reader : IsReader r.1
  pub same : r.1 ≡ record c { cache = r.1.cache }

get-hit :
    (idx : ℕ) (c : BlockCache) {b : List ℕ}
    → look_up idx c.entries ≡ some b
    → ((get idx c).0 ≡ some b) × ((get idx c).1.entries ≡ c.entries)
unfolding get
get-hit idx c e = (rw (get, e), rw (get, e))

get-miss : (idx : ℕ) (c : BlockCache) → look_up idx c.entries ≡ none → get idx c ≡ (none, c)
unfolding get
get-miss idx c e = rw (get, e)

true_block :
    (idx : ℕ) (c : CachedReader) {b : List ℕ}
    → IsReader c
    → look_up idx c.cache.entries ≡ some b
    → some b ≡ c.source.read_block idx
true_block idx c i e = elim (i.coherent idx) [ inl gone ↦ absurd (cc) | inr same ↦ sym e ∙ same ]

get_block-hit :
    (idx : ℕ) (c : CachedReader) {b : List ℕ}
    → look_up idx c.cache.entries ≡ some b
    → get_block idx c ≡ (some b, record c { cache = (get idx c.cache).1 })
unfolding get_block
get_block-hit idx c e = rw (get_block, (get-hit idx c.cache e).0)

get_block-miss :
    (idx : ℕ) (c : CachedReader)
    → look_up idx c.cache.entries ≡ none
    → get_block idx c ≡ fetch_block idx c
unfolding get_block
get_block-miss idx c e =
    ap
      (λ (r : Option (List ℕ) × BlockCache). elim r.0 as (λ o. Option (List ℕ) × CachedReader) [
        | none ↦ fetch_block idx (record c { cache = r.1 })
        | some b ↦ (some b, record c { cache = r.1 })
      ])
      (get-miss idx c.cache e)

Reads-hit :
    (idx : ℕ) (c : CachedReader) {b : List ℕ}
    → IsReader c
    → look_up idx c.cache.entries ≡ some b
    → Reads idx c (some b, record c { cache = (get idx c.cache).1 })
Reads-hit idx c i e = record {
  answer = true_block idx c i e;
  reader = record {
    cache = get-IsCache idx c.cache i.cache;
    coherent = λ k. rw (get-hit idx c.cache e).1 (i.coherent k);
  };
  same = refl;
}

put-IsTrue :
    (idx : ℕ) (b : List ℕ) (c : CachedReader)
    → IsReader c
    → c.source.read_block idx ≡ some b
    → IsTrue (record c { cache = put idx b c.cache })
put-IsTrue idx b c i e k = elim (put-look_up k idx b c.cache i.cache) [
  | inl (here, found) ↦ inr (found ∙ sym e ∙ ap c.source.read_block (sym here))
  | inr (inl gone) ↦ inl gone
  | inr (inr kept) ↦ elim (i.coherent k) [
    | inl none_there ↦ inl (kept ∙ none_there)
    | inr same ↦ inr (kept ∙ same)
  ]
]

Reads-fetch :
    (idx : ℕ) (c : CachedReader)
    → IsReader c
    → look_up idx c.cache.entries ≡ none
    → Reads idx c (fetch_block idx c)
unfolding fetch_block
Reads-fetch idx c i miss = elim (Option-cases (c.source.read_block idx)) [
  | inl e ↦ rw (fetch_block, e) (record { answer = sym e; reader = i; same = refl })
  | inr (b, e) ↦
      rw (fetch_block, e)
        (record {
          answer = sym e;
          reader = record {
            cache = put-IsCache idx b c.cache i.cache miss;
            coherent = put-IsTrue idx b c i e;
          };
          same = refl;
        })
]

-- A block read through the cache is the block that the source reads, and an error where it returns
-- one; the cache still holds true blocks only, no more than its limit, and lists each of them once.
pub get_block-Reads : (idx : ℕ) (c : CachedReader) → IsReader c → Reads idx c (get_block idx c)
get_block-Reads idx c i = elim (Option-cases (look_up idx c.cache.entries)) [
  | inl miss ↦
      subst (λ r. Reads idx c r) (sym (get_block-miss idx c miss)) (Reads-fetch idx c i miss)
  | inr (b, hit) ↦
      subst (λ r. Reads idx c r) (sym (get_block-hit idx c hit)) (Reads-hit idx c i hit)
]
