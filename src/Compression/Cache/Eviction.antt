-- ===== src/Compression/Cache/Eviction.antt =====
-- internal/fs/compression/cache.go: what get and put leave in the cache.
use udpfsd.Common.{
  ℕ, ◌<◌, ◌≤◌, ◌≡◌, ◌≢◌, ◌⊎◌, inl, inr, refl, sym, ap, ◌∙◌, arith, Bool, true, false, none, some,
  List, [], ◌∷◌, leb, ◌==◌, if◌then◌else◌, length, Bool-cases, Option-cases, leb→lt, ◌||◌,
}
use udpfsd.Compression.Cache.{
  BlockCache, look_up, delete, without, contains, move_to_end, get, evict, put,
}
use udpfsd.Compression.Cache.Order.{
  IsCache, IsDistinct-append, IsOrder, contains-append, contains-without, stored, stored-delete,
  without-IsDistinct,
}

-- What eviction leaves: an order and entries that still go together, below the limit
pub record Evicted (max : ℕ) (entries : List (ℕ × List ℕ)) (left : List ℕ × List (ℕ × List ℕ))
    : Type 0 where
  pub order : IsOrder left.0 left.1
  pub below : length left.1 < max
  pub kept : (k : ℕ) → stored k left.1 ≡ true → look_up k left.1 ≡ look_up k entries

nothing_stored : (entries : List (ℕ × List ℕ)) → ((k : ℕ) → false ≡ stored k entries) → entries ≡ []
unfolding stored look_up
nothing_stored [] h = refl
nothing_stored ((k, b) ∷ rest) h = absurd (let no = h k in ground (arith, no))

-- Where no key is listed, nothing is stored.
Evicted-nil :
    (max : ℕ) (entries : List (ℕ × List ℕ))
    → 1 ≤ max
    → IsOrder [] entries
    → Evicted max entries ([], entries)
unfolding contains
Evicted-nil max entries h o =
    let e = nothing_stored entries o.same in
    record { order = o; below = rw e (omega arith); kept = λ k s. refl }

stored-look_up :
    (k : ℕ) (d e : List (ℕ × List ℕ)) → look_up k d ≡ look_up k e → stored k d ≡ stored k e
unfolding stored
stored-look_up k d e h = rw (stored, h)

stored-none : (k : ℕ) (d : List (ℕ × List ℕ)) → look_up k d ≡ none → stored k d ≡ false
unfolding stored
stored-none k d h = rw (stored, h)

-- Deletion takes one key away.
look_up-delete :
    (j k : ℕ) (entries : List (ℕ × List ℕ))
    → ((j ≡ k) × (look_up j (delete k entries) ≡ none))
      ⊎ ((j ≢ k) × (look_up j (delete k entries) ≡ look_up j entries))
look_up-delete j k entries = elim (Bool-cases (j == k)) [
  | inl here ↦ inl (ground arith, stored-delete j k entries ∙ rw here)
  | inr other ↦ inr (ground arith, stored-delete j k entries ∙ rw other)
]

stored-delete-cases :
    (j k : ℕ) (entries : List (ℕ × List ℕ))
    → stored j (delete k entries) ≡ (if j == k then false else stored j entries)
stored-delete-cases j k entries = elim (look_up-delete j k entries) [
  | inl (e, h) ↦ stored-none j _ h ∙ ground arith
  | inr (e, h) ↦ stored-look_up j _ _ h ∙ ground arith
]

IsOrder-delete :
    (k : ℕ) (order : List ℕ) (entries : List (ℕ × List ℕ))
    → IsOrder (k ∷ order) entries
    → IsOrder order (delete k entries)
unfolding contains
IsOrder-delete k order entries o = record {
  same = λ j. ground (arith, o.same j, o.distinct.0, stored-delete-cases j k entries);
  distinct = o.distinct.1;
}

evict-Evicted :
    (max : ℕ) (order : List ℕ) (entries : List (ℕ × List ℕ))
    → 1 ≤ max
    → IsOrder order entries
    → Evicted max entries (evict max order entries)
unfolding evict
evict-Evicted max [] entries h o = Evicted-nil max entries h o
evict-Evicted max (k ∷ order) entries h o = elim (Bool-cases (leb max (length entries))) [
  | inl filled ↦
      let r = evict-Evicted max order (delete k entries) h (IsOrder-delete k order entries o) in
      rw (evict, filled)
        (record {
          order = r.order;
          below = r.below;
          kept = λ j s. r.kept j s ∙ kept_before j _ (stored-look_up j _ _ (r.kept j s)) s;
        })
  | inr room ↦ rw (evict, room) (record { order = o; below = leb→lt _ _ room; kept = λ j s. refl })
]
  where
    kept_before :
        (j : ℕ) (left : List (ℕ × List ℕ))
        → stored j left ≡ stored j (delete k entries)
        → stored j left ≡ true
        → look_up j (delete k entries) ≡ look_up j entries
    kept_before j left e s = elim (look_up-delete j k entries) [
      | inl (same, gone) ↦ absurd (let a = stored-none j _ gone in cc)
      | inr (other, h) ↦ h
    ]

length-delete : (k : ℕ) (entries : List (ℕ × List ℕ)) → length (delete k entries) ≤ length entries
unfolding delete
length-delete k [] = omega arith
length-delete k ((i, b) ∷ rest) = ground (arith, length-delete k rest)

stored-some :
    (k : ℕ) (d : List (ℕ × List ℕ)) {b : List ℕ} → look_up k d ≡ some b → stored k d ≡ true
unfolding stored
stored-some k d h = rw (stored, h)

pub look_up-put :
    (j idx : ℕ) (b : List ℕ) (entries : List (ℕ × List ℕ))
    → ((j ≡ idx) × (look_up j ((idx, b) ∷ delete idx entries) ≡ some b))
      ⊎ ((j ≢ idx) × (look_up j ((idx, b) ∷ delete idx entries) ≡ look_up j entries))
unfolding look_up
look_up-put j idx b entries = elim (Bool-cases (idx == j)) [
  | inl here ↦ inl (ground arith, rw (look_up, here))
  | inr other ↦ elim (look_up-delete j idx entries) [
    | inl (e, h) ↦ absurd (ground (arith, e))
    | inr (e, h) ↦ inr (e, rw (look_up, other) h)
  ]
]

stored-put :
    (j idx : ℕ) (b : List ℕ) (entries : List (ℕ × List ℕ))
    → stored j ((idx, b) ∷ delete idx entries) ≡ (if j == idx then true else stored j entries)
stored-put j idx b entries = elim (look_up-put j idx b entries) [
  | inl (e, h) ↦ stored-some j _ h ∙ ground arith
  | inr (e, h) ↦ stored-look_up j _ _ h ∙ ground arith
]

not_left :
    {max : ℕ} (idx : ℕ) {entries : List (ℕ × List ℕ)} {left : List ℕ × List (ℕ × List ℕ)}
    → Evicted max entries left
    → look_up idx entries ≡ none
    → stored idx left.1 ≡ false
not_left idx {left = left} v miss = elim (Bool-cases (stored idx left.1)) [
  | inl s ↦ absurd (let a = stored-none idx left.1 (v.kept idx s ∙ miss) in cc)
  | inr s ↦ s
]

-- After a block that is not in the cache is put there, the cache still holds no more blocks than its
-- limit, and the order lists each stored key once.
pub put-IsCache :
    (idx : ℕ) (b : List ℕ) (c : BlockCache)
    → IsCache c
    → look_up idx c.entries ≡ none
    → IsCache (put idx b c)
unfolding put
put-IsCache idx b c i miss =
    let v = evict-Evicted c.max c.order c.entries i.room i.order in
    let fresh = not_left idx v miss in
    record {
      order = record {
        same = λ j.
            contains-append j (evict c.max c.order c.entries).0 (idx ∷ [])
            ∙ listed j (v.order.same j)
            ∙ sym (stored-put j idx b (evict c.max c.order c.entries).1);
        distinct = IsDistinct-append _ idx v.order.distinct (v.order.same idx ∙ fresh);
      };
      bounded = omega (arith, v.below, length-delete idx (evict c.max c.order c.entries).1);
      room = i.room;
    }
  where
    listed :
        (j : ℕ) {x y : Bool} → x ≡ y → (x || contains j (idx ∷ [])) ≡ (if j == idx then true else y)
    listed j e = unfold contains in ground (arith, e)

move_to_end-IsOrder :
    (idx : ℕ) (order : List ℕ) (entries : List (ℕ × List ℕ))
    → IsOrder order entries
    → IsOrder (move_to_end idx order) entries
unfolding move_to_end
move_to_end-IsOrder idx order entries o = elim (Bool-cases (contains idx order)) [
  | inr absent ↦ rw (move_to_end, absent) o
  | inl present ↦
      rw (move_to_end, present)
        (record {
          same = λ j.
              contains-append j (without idx order) (idx ∷ [])
              ∙ listed j (contains-without j idx order o.distinct) present
              ∙ o.same j;
          distinct =
              IsDistinct-append (without idx order) idx (without-IsDistinct idx order o.distinct)
                (contains-without idx idx order o.distinct ∙ ground arith);
        })
]
  where
    listed :
        (j : ℕ) {x : Bool}
        → x ≡ (if j == idx then false else contains j order)
        → contains idx order ≡ true
        → (x || contains j (idx ∷ [])) ≡ contains j order
    listed j e p = elim (Bool-cases (j == idx)) [
      | inl here ↦
          let same : j ≡ idx = ground arith in
          unfold contains in ground (arith, e, p, ap (λ k. contains k order) same)
      | inr other ↦ unfold contains in ground (arith, e)
    ]

-- Looking a block up keeps the order, and moves only the key to the end.
pub get-IsCache : (idx : ℕ) (c : BlockCache) → IsCache c → IsCache (get idx c).1
unfolding get
get-IsCache idx c i = elim (Option-cases (look_up idx c.entries)) [
  | inl miss ↦ rw (get, miss) i
  | inr (b, hit) ↦
      rw (get, hit)
        (record {
          order = move_to_end-IsOrder idx c.order c.entries i.order;
          bounded = i.bounded;
          room = i.room;
        })
]

-- After a block is put, it is found, and any other key has what it had, or is gone.
pub put-look_up :
    (j idx : ℕ) (b : List ℕ) (c : BlockCache)
    → IsCache c
    → ((j ≡ idx) × (look_up j (put idx b c).entries ≡ some b))
      ⊎ ((look_up j (put idx b c).entries ≡ none)
          ⊎ (look_up j (put idx b c).entries ≡ look_up j c.entries))
unfolding put
put-look_up j idx b c i =
    let v = evict-Evicted c.max c.order c.entries i.room i.order in
    elim (look_up-put j idx b (evict c.max c.order c.entries).1) [
      | inl (e, h) ↦ inl (e, h)
      | inr (e, h) ↦ inr (elim (Option-cases (look_up j (evict c.max c.order c.entries).1)) [
        | inl gone ↦ inl (h ∙ gone)
        | inr (x, there) ↦ inr (h ∙ v.kept j (stored-some j _ there))
      ])
    ]

pub empty-IsOrder : IsOrder [] []
unfolding contains stored look_up
empty-IsOrder = record { same = λ k. refl; distinct = tt }
