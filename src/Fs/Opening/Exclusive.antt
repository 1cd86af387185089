-- ===== src/Fs/Opening/Exclusive.antt =====
-- internal/fs/fileops.go: a file that is open for writing is open once.
use udpfsd.Common.{
  ℕ, zero, suc, ◌+◌, ◌-◌, ◌≤◌, ◌<◌, ◌==◌, ◌≡◌, ◌≢◌, ◌⊎◌, inl, inr, refl, sym, ap, ◌∙◌, subst, arith,
  true, Option, none, some, List, if◌then◌else◌, leb, same_name, same_name_refl, same_name→eq,
  update, Bool-cases, ==_iff, Option-cases,
}
use mathlib.Core.Option.{some-injective}
use udpfsd.Fs.Handles.{
  FileHandle, DirHandle, Handle, file, dir, Backend, Scan, free, oldest, allocate, close_slot,
  named, state_loop, handle_max_last_used,
}

abbrev pub Slots : Type 0
Slots = ℕ → Option Handle

-- Of two handles of one file, each is for reading.
pub record Exclusive (hs : Slots) : Type 0 where
  pub reads :
      (i j : ℕ) (f g : FileHandle)
      → i < 64
      → j < 64
      → i ≢ j
      → hs i ≡ some (file f)
      → hs j ≡ some (file g)
      → f.name ≡ g.name
      → f.read_only ≡ true

named→file :
    (path : List ℕ) (o : Option Handle) (f : FileHandle)
    → named path o ≡ some f
    → (o ≡ some (file f)) × (f.name ≡ path)
named→file path none f e = absurd (cc)
named→file path (some (dir d)) f e = absurd (cc)
named→file path (some (file g)) f e = elim (Bool-cases (same_name g.name path)) [
  | inl s ↦
      let q : g ≡ f = some-injective _ _ (subst (λ b. (if b then some g else none) ≡ some f) s e) in
      (
        ap (λ x. some (file x)) q,
        subst (λ (x : FileHandle). x.name ≡ path) q (same_name→eq g.name path s),
      )
  | inr s ↦ absurd (let q = subst (λ b. (if b then some g else none) ≡ some f) s e in cc)
]

file→named :
    (path : List ℕ) (o : Option Handle) (f : FileHandle)
    → o ≡ some (file f)
    → f.name ≡ path
    → named path o ≡ some f
file→named path o f e n =
    rw e (rw (subst (λ p. same_name f.name p ≡ true) n (same_name_refl f.name)) refl)

-- The handle that the search for a path stops at
pub record Seen (n i : ℕ) (path : List ℕ) (b : Backend) : Type 0 where
  pub is_open : (state_loop n i path b).0 ≡ true
  pub at : ℕ
  pub f : FileHandle
  pub in_range : at < i + n
  pub slot : b.handles at ≡ some (file f)
  pub same_path : f.name ≡ path
  pub state : (state_loop n i path b).1 ≡ f.read_only

state_loop-none :
    (n i : ℕ) (path : List ℕ) (b : Backend)
    → named path (b.handles i) ≡ none
    → state_loop (suc n) i path b ≡ state_loop n (i + 1) path b
unfolding state_loop
state_loop-none n i path b m = ground (arith, m)

state_loop-some :
    (n i : ℕ) (path : List ℕ) (b : Backend) (f : FileHandle)
    → named path (b.handles i) ≡ some f
    → state_loop (suc n) i path b ≡ (true, f.read_only)
unfolding state_loop
state_loop-some n i path b f m = ground (arith, m)

pub state_loop-Seen :
    (n i : ℕ) (path : List ℕ) (b : Backend) (k : ℕ) (g : FileHandle)
    → i ≤ k
    → k < i + n
    → b.handles k ≡ some (file g)
    → g.name ≡ path
    → Seen n i path b
unfolding state_loop
state_loop-Seen zero i path b k g lo hi s e = absurd (omega arith)
state_loop-Seen (suc n) i path b k g lo hi s e = elim (Option-cases (named path (b.handles i))) [
  | inr (f, m) ↦
      let q = named→file path (b.handles i) f m in
      record {
        is_open = ap (λ r. r.0) (state_loop-some n i path b f m);
        at = i;
        f = f;
        in_range = omega arith;
        slot = q.0;
        same_path = q.1;
        state = ap (λ r. r.1) (state_loop-some n i path b f m);
      }
  | inl m ↦
      let later : i ≢ k = λ p.
        let q = file→named path (b.handles k) g s e in
        let r : named path (b.handles k) ≡ none =
          subst (λ x. named path (b.handles x) ≡ none) p m in
        cc in
      let t = state_loop-Seen n (i + 1) path b k g (omega arith) (omega arith) s e in
      record {
        is_open = ap (λ r. r.0) (state_loop-none n i path b m) ∙ t.is_open;
        at = t.at;
        f = t.f;
        in_range = omega (arith, t.in_range);
        slot = t.slot;
        same_path = t.same_path;
        state = ap (λ r. r.1) (state_loop-none n i path b m) ∙ t.state;
      }
]

at_slot :
    (hs : Slots) (t : ℕ) (v : Option Handle) (i : ℕ) (r : Option Handle)
    → update hs t v i ≡ r
    → ((i ≡ t) × (v ≡ r)) ⊎ (hs i ≡ r)
at_slot hs t v i r e = elim (Bool-cases (i == t)) [
  | inl p ↦ inl ((==_iff i t).0 p, subst (λ b. (if b then v else hs i) ≡ r) p e)
  | inr p ↦ inr (subst (λ b. (if b then v else hs i) ≡ r) p e)
]

abbrev pub file_or : FileHandle → Option Handle → FileHandle
file_or d none = d
file_or d (some (dir x)) = d
file_or d (some (file f)) = f

-- A new handle in a slot, where any other of that file is for reading, and so is the new one
pub put-Exclusive :
    (hs : Slots) (t : ℕ) (f : FileHandle)
    → Exclusive hs
    → ((k : ℕ) (g : FileHandle)
        → k < 64
        → hs k ≡ some (file g)
        → g.name ≡ f.name
        → (f.read_only ≡ true) × (g.read_only ≡ true))
    → Exclusive (update hs t (some (file f)))
put-Exclusive hs t f x others = record {
  reads = λ i j g h li lj ne si sj e. elim (at_slot hs t (some (file f)) i (some (file g)) si) [
    | inl (p, q) ↦
        let same : f ≡ g = ap (file_or f) q in
        elim (at_slot hs t (some (file f)) j (some (file h)) sj) [
          | inl (r, s) ↦ absurd (ne (p ∙ sym r))
          | inr s ↦
              subst (λ (y : FileHandle). y.read_only ≡ true) same
                (others j h lj s (sym e ∙ ap (λ (y : FileHandle). y.name) (sym same))).0
        ]
    | inr q ↦ elim (at_slot hs t (some (file f)) j (some (file h)) sj) [
      | inl (r, s) ↦
          (others i g li q (e ∙ ap (λ (y : FileHandle). y.name) (sym (ap (file_or f) s)))).1
      | inr s ↦ x.reads i j g h li lj ne q s e
    ]
  ];
}

pub put_dir-Exclusive :
    (hs : Slots) (t : ℕ) (d : DirHandle) → Exclusive hs → Exclusive (update hs t (some (dir d)))
put_dir-Exclusive hs t d x = record {
  reads = λ i j g h li lj ne si sj e. elim (at_slot hs t (some (dir d)) i (some (file g)) si) [
    | inl (p, q) ↦ absurd (cc)
    | inr q ↦ elim (at_slot hs t (some (dir d)) j (some (file h)) sj) [
      | inl (r, s) ↦ absurd (cc)
      | inr s ↦ x.reads i j g h li lj ne q s e
    ]
  ];
}

close_slot-handles : (i : ℕ) (b : Backend) → (close_slot i b).handles ≡ b.handles
close_slot-handles i b = ground arith

-- The slots after the allocation of a handle
pub allocate-slots :
    (r : Scan) (x : Handle) (now stored : ℕ) (b : Backend)
    → ((allocate r x now stored b).1.handles ≡ b.handles)
      ⊎ ((t : ℕ) × ((allocate r x now stored b).1.handles ≡ update b.handles t (some x)))
unfolding allocate
allocate-slots (free i) x now stored b = inr (i, refl)
allocate-slots (oldest i stamp) x now stored b =
    elim (Bool-cases (leb handle_max_last_used (now - stamp))) [
      | inl e ↦ rw e (inr (i, ap (λ hs. update hs i (some x)) (close_slot-handles i b)))
      | inr e ↦ rw e (inl refl)
    ]
