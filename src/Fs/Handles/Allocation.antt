-- ===== src/Fs/Handles/Allocation.antt =====
-- internal/fs/handles.go: which index allocHandle takes, and what getFile finds there.
use udpfsd.Common.{
  ℕ, zero, suc, ◌+◌, ◌-◌, ◌^◌, ◌<◌, ◌≤◌, ◌≡◌, ◌≢◌, ◌⊎◌, inl, inr, refl, sym, ap, ◌∙◌, arith, true,
  false, Option, none, some, Option-cases, Bool-cases, ltb, leb, ◌==◌, if◌then◌else◌, update, ok,
  lt_or_le, subst, ltb→lt, ltb→le, leb→le, leb→lt,
}
use udpfsd.Fs.Handles.{
  FileHandle, Handle, file, Backend, handle_max_last_used, set_handle, touch, close_handle, Scan,
  free, oldest, scan, Allocated, handle, too_many, allocate, alloc_handle, slot_of, file_at,
  get_file, close_slot,
}

-- All the slots from `i` up to before `j` are taken.
pub AllTaken : Backend → ℕ → ℕ → Type 0
AllTaken b i j = (k : ℕ) → i ≤ k → k < j → b.handles k ≢ none

-- None of these slots was last used before `t`.
pub NoneOlder : Backend → ℕ → ℕ → ℕ → Type 0
NoneOlder b i j t = (k : ℕ) → i ≤ k → k < j → t ≤ b.last_used k

-- What the loop finds in the `n` slots from `i` on
data Scans (b : Backend) (i n old stamp : ℕ) : Scan → Type 0 where
  found :
      (k : ℕ)
      → i ≤ k
      → k < i + n
      → b.handles k ≡ none
      → AllTaken b i k
      → Scans b i n old stamp (free k)
  filled :
      (k t : ℕ)
      → AllTaken b i (i + n)
      → NoneOlder b i (i + n) t
      → t ≤ stamp
      → ((k ≡ old) × (t ≡ stamp)) ⊎ ((t ≡ b.last_used k) × (i ≤ k) × (k < i + n))
      → Scans b i n old stamp (oldest k t)

AllTaken-cons : (b : Backend) (i j : ℕ) → b.handles i ≢ none → AllTaken b (i + 1) j → AllTaken b i j
unfolding AllTaken
AllTaken-cons b i j here rest k le lt = elim (lt_or_le i k) [
  | inl after ↦ rest k (omega arith) lt
  | inr before ↦ let e : i ≡ k = omega arith in λ empty. here (ap b.handles e ∙ empty)
]

NoneOlder-cons :
    (b : Backend) (i j t : ℕ) → t ≤ b.last_used i → NoneOlder b (i + 1) j t → NoneOlder b i j t
unfolding NoneOlder
NoneOlder-cons b i j t here rest k le lt = elim (lt_or_le i k) [
  | inl after ↦ rest k (omega arith) lt
  | inr before ↦
      let e : b.last_used i ≡ b.last_used k = ap b.last_used (omega arith) in omega (arith, e)
]

not_none : {o : Option Handle} {h : Handle} → o ≡ some h → o ≢ none
not_none e f = cc

-- A taken slot before the others, which is older than all seen so far, or is not
Scans-older :
    (n i old stamp : ℕ) (b : Backend) {h : Handle} {r : Scan}
    → b.handles i ≡ some h
    → ltb (b.last_used i) stamp ≡ true
    → Scans b (i + 1) n i (b.last_used i) r
    → Scans b i (suc n) old stamp r
unfolding AllTaken
Scans-older n i old stamp b e older (found k le lt empty taken) =
    found k (omega arith) (omega arith) empty (AllTaken-cons b i k (not_none e) taken)
Scans-older n i old stamp b e older (filled k t taken none_older low (inl (p, q))) =
    filled k t (λ j le lt. AllTaken-cons b i (i + 1 + n) (not_none e) taken j le (omega arith))
      (unfold NoneOlder in
        λ j le lt. NoneOlder-cons b i (i + 1 + n) t (omega arith) none_older j le (omega arith))
      (omega (arith, ltb→lt _ _ older)) (inr (q ∙ ap b.last_used (sym p), omega arith, omega arith))
Scans-older n i old stamp b e older (filled k t taken none_older low (inr (q, le, lt))) =
    filled k t (λ j le lt. AllTaken-cons b i (i + 1 + n) (not_none e) taken j le (omega arith))
      (unfold NoneOlder in
        λ j le lt. NoneOlder-cons b i (i + 1 + n) t (omega arith) none_older j le (omega arith))
      (omega (arith, ltb→lt _ _ older)) (inr (q, omega arith, omega arith))

Scans-newer :
    (n i old stamp : ℕ) (b : Backend) {h : Handle} {r : Scan}
    → b.handles i ≡ some h
    → ltb (b.last_used i) stamp ≡ false
    → Scans b (i + 1) n old stamp r
    → Scans b i (suc n) old stamp r
unfolding AllTaken
Scans-newer n i old stamp b e newer (found k le lt empty taken) =
    found k (omega arith) (omega arith) empty (AllTaken-cons b i k (not_none e) taken)
Scans-newer n i old stamp b e newer (filled k t taken none_older low why) =
    filled k t (λ j le lt. AllTaken-cons b i (i + 1 + n) (not_none e) taken j le (omega arith))
      (unfold NoneOlder in
        λ j le lt.
          NoneOlder-cons b i (i + 1 + n) t (omega (arith, low, ltb→le _ _ newer)) none_older j le
            (omega arith))
      low (later why)
  where
    later :
        ((k ≡ old) × (t ≡ stamp)) ⊎ ((t ≡ b.last_used k) × (i + 1 ≤ k) × (k < i + 1 + n))
        → ((k ≡ old) × (t ≡ stamp)) ⊎ ((t ≡ b.last_used k) × (i ≤ k) × (k < i + suc n))
    later (inl p) = inl p
    later (inr (q, le, lt)) = inr (q, omega arith, omega arith)

scan-free :
    (n i old stamp : ℕ) (b : Backend) → b.handles i ≡ none → scan (suc n) i old stamp b ≡ free i
unfolding scan
scan-free n i old stamp b e = rw (scan, e)

scan-taken :
    (n i old stamp : ℕ) (b : Backend) {h : Handle}
    → b.handles i ≡ some h
    → scan (suc n) i old stamp b ≡ (
        if ltb (b.last_used i) stamp
        then scan n (i + 1) i (b.last_used i) b
        else scan n (i + 1) old stamp b)
unfolding scan
scan-taken n i old stamp b e = elim (Bool-cases (ltb (b.last_used i) stamp)) [
  | inl older ↦ rw (scan, e, older)
  | inr newer ↦ rw (scan, e, newer)
]

scan-Scans : (n i old stamp : ℕ) (b : Backend) → Scans b i n old stamp (scan n i old stamp b)
unfolding AllTaken NoneOlder
scan-Scans zero i old stamp b =
    unfold scan in
    filled old stamp (λ k le lt. absurd (omega arith)) (λ k le lt. absurd (omega arith))
      (omega arith) (inl (refl, refl))
scan-Scans (suc n) i old stamp b = elim (Option-cases (b.handles i)) [
  | inl empty ↦
      subst (λ r. Scans b i (suc n) old stamp r) (sym (scan-free n i old stamp b empty))
        (found i (omega arith) (omega arith) empty (λ k le lt. absurd (omega arith)))
  | inr (h, e) ↦
      subst (λ r. Scans b i (suc n) old stamp r) (sym (scan-taken n i old stamp b e))
        (elim (Bool-cases (ltb (b.last_used i) stamp)) [
          | inl older ↦
              rw older
                (Scans-older n i old stamp b e older (scan-Scans n (i + 1) i (b.last_used i) b))
          | inr newer ↦
              rw newer (Scans-newer n i old stamp b e newer (scan-Scans n (i + 1) old stamp b))
        ])
]

-- No slot has gone unused for an hour.
pub AllRecent : Backend → ℕ → Type 0
AllRecent b now = (k : ℕ) → k < 64 → now - b.last_used k < handle_max_last_used

-- What `allocHandle` does with the new handle `h`, where `now` is its second reading of the clock and
-- `stored` its last
pub data Allocates (b : Backend) (h : Handle) (now stored : ℕ) : Allocated × Backend → Type 0 where
  took :
      (k : ℕ)
      → k < 64
      → b.handles k ≡ none
      → AllTaken b 0 k
      → Allocates b h now stored (handle (k + 1), touch k stored (set_handle k (some h) b))
  evicted :
      (k : ℕ) (g : Handle)
      → k < 64
      → AllTaken b 0 64
      → NoneOlder b 0 64 (b.last_used k)
      → handle_max_last_used ≤ now - b.last_used k
      → b.handles k ≡ some g
      → Allocates b h now stored
          (handle (k + 1), touch k stored (set_handle k (some h) (close_handle g b)))
  refused : AllTaken b 0 64 → AllRecent b now → Allocates b h now stored (too_many, b)

-- The clock does not go back: no slot was used after `start`.
unfoldable pub IsPast : Backend → ℕ → Type 0
IsPast b start = (k : ℕ) → k < 64 → b.last_used k ≤ start

close_slot-some :
    (k : ℕ) (b : Backend) {g : Handle} → b.handles k ≡ some g → close_slot k b ≡ close_handle g b
close_slot-some k b e = rw (close_slot, e)

allocate-idle :
    (k t : ℕ) (h : Handle) (now stored : ℕ) (b : Backend) {g : Handle}
    → leb handle_max_last_used (now - t) ≡ true
    → b.handles k ≡ some g
    → allocate (oldest k t) h now stored b
      ≡ (handle (k + 1), touch k stored (set_handle k (some h) (close_handle g b)))
unfolding allocate
allocate-idle k t h now stored b {g} idle e = rw (allocate, idle, close_slot-some k b e)

allocate-busy :
    (k t : ℕ) (h : Handle) (now stored : ℕ) (b : Backend)
    → leb handle_max_last_used (now - t) ≡ false
    → allocate (oldest k t) h now stored b ≡ (too_many, b)
unfolding allocate
allocate-busy k t h now stored b busy = rw (allocate, busy)

Allocates-full :
    (b : Backend) (h : Handle) (k now stored : ℕ)
    → k < 64
    → AllTaken b 0 64
    → NoneOlder b 0 64 (b.last_used k)
    → Allocates b h now stored (allocate (oldest k (b.last_used k)) h now stored b)
Allocates-full b h k now stored lt taken none_older =
    elim (Bool-cases (leb handle_max_last_used (now - b.last_used k))) [
      | inl idle ↦ elim (Option-cases (b.handles k)) [
        | inl empty ↦ absurd (unfold AllTaken in taken k (omega arith) lt empty)
        | inr (g, e) ↦
            subst (λ r. Allocates b h now stored r) (sym (allocate-idle k _ h now stored b idle e))
              (evicted k g lt taken none_older (leb→le _ _ idle) e)
      ]
      | inr busy ↦
          subst (λ r. Allocates b h now stored r) (sym (allocate-busy k _ h now stored b busy))
            (refused taken (
              unfold AllRecent NoneOlder in
              λ j small. omega (arith, leb→lt _ _ busy, none_older j (omega arith) small)))
    ]

Allocates-Scans :
    (b : Backend) (h : Handle) (start now stored : ℕ) {r : Scan}
    → IsPast b start
    → Scans b 0 64 0 start r
    → Allocates b h now stored (allocate r h now stored b)
unfolding allocate
Allocates-Scans b h start now stored past (found k le lt empty taken) = took k lt empty taken
Allocates-Scans b h start now stored past (filled k t taken none_older low (inr (q, le, lt))) =
    subst (λ x. Allocates b h now stored (allocate (oldest k x) h now stored b)) (sym q)
      (Allocates-full b h k now stored lt taken (subst (λ x. NoneOlder b 0 64 x) q none_older))
Allocates-Scans b h start now stored past (filled k t taken none_older low (inl (p, q))) =
    let first : t ≡ b.last_used 0 =
      (unfold IsPast NoneOlder in
        omega (arith, past 0 (omega arith), none_older 0 (omega arith) (omega arith))) in
    let here : t ≡ b.last_used k = first ∙ ap b.last_used (sym p) in
    subst (λ x. Allocates b h now stored (allocate (oldest k x) h now stored b)) (sym here)
      (Allocates-full b h k now stored (omega arith) taken
        (subst (λ x. NoneOlder b 0 64 x) here none_older))

-- If the clock does not go back: the first free slot is taken, and nothing else changes; if all are
-- taken, the one that was used least lately is closed and taken, if that was an hour ago or more; and
-- if not, the call is refused and changes nothing.
pub alloc_handle-Allocates :
    (b : Backend) (h : Handle) (start now stored : ℕ)
    → IsPast b start
    → Allocates b h now stored (alloc_handle h start now stored b)
unfolding alloc_handle
alloc_handle-Allocates b h start now stored past =
    Allocates-Scans b h start now stored past (scan-Scans 64 0 0 start b)

same_handle : {m n : ℕ} → handle m ≡ handle n → m ≡ n
same_handle e = cc

-- The returned handle is in range, and its slot holds what was put there.
record Holds (h : Handle) (n : ℕ) (c : Backend) : Type 0 where
  low : 1 ≤ n
  high : n ≤ 64
  held : c.handles (n - 1) ≡ some h

stored_at : (k : ℕ) (f : ℕ → Option Handle) (h : Option Handle) → update f k h k ≡ h
stored_at k f h = ground arith

Holds-put :
    (k stored : ℕ) (h : Handle) (b : Backend)
    → k < 64
    → Holds h (k + 1) (touch k stored (set_handle k (some h) b))
Holds-put k stored h b lt = record {
  low = omega arith;
  high = omega arith;
  held = ap (update b.handles k (some h)) (omega arith) ∙ stored_at k b.handles (some h);
}

Holds-Allocates :
    {b : Backend} {h : Handle} {now stored n : ℕ} {c : Backend} {r : Allocated × Backend}
    → Allocates b h now stored r
    → r ≡ (handle n, c)
    → Holds h n c
Holds-Allocates {b} {h} {now} {stored} {c = c} (took k lt empty taken) e =
    subst (λ m. Holds h m c) (same_handle (ap (λ r. r.0) e))
      (subst (λ d. Holds h (k + 1) d) (ap (λ r. r.1) e) (Holds-put k stored h b lt))
Holds-Allocates {b} {h} {now} {stored} {c = c} (evicted k g lt taken none_older idle was) e =
    subst (λ m. Holds h m c) (same_handle (ap (λ r. r.0) e))
      (subst (λ d. Holds h (k + 1) d) (ap (λ r. r.1) e)
        (Holds-put k stored h (close_handle g b) lt))
Holds-Allocates (refused taken recent) e = absurd (let no = ap (λ r. r.0) e in cc)

file_at-some :
    (i now : ℕ) (b : Backend) {f : FileHandle}
    → b.handles i ≡ some (file f)
    → file_at i now b ≡ (some f, touch i now b)
unfolding file_at
file_at-some i now b e = rw (file_at, e)

positive : (n : ℕ) → n ≤ 64 → leb (2 ^ 31) n ≡ false
positive n h = ground arith

not_zero : (n : ℕ) → 1 ≤ n → (n == 0) ≡ false
not_zero n h = ground arith

pub slot_of-in : (n : ℕ) → 1 ≤ n → n ≤ 64 → slot_of n ≡ some (n - 1)
unfolding slot_of
slot_of-in n low high = ground arith

get_file-Holds :
    {f : FileHandle} {n : ℕ} {c : Backend} (later : ℕ)
    → Holds (file f) n c
    → get_file n later c ≡ ok (some f, touch (n - 1) later c)
unfolding get_file
get_file-Holds {f} {n} {c} later h =
    rw (get_file, positive n h.high, not_zero n h.low, slot_of-in n h.low h.high)
      (ap ok (file_at-some (n - 1) later c h.held))

-- A file for which `allocHandle` returns a handle is found at that handle.
pub get_file-alloc_handle :
    (b : Backend) (f : FileHandle) (start now stored later n : ℕ) (c : Backend)
    → IsPast b start
    → alloc_handle (file f) start now stored b ≡ (handle n, c)
    → get_file n later c ≡ ok (some f, touch (n - 1) later c)
get_file-alloc_handle b f start now stored later n c past e =
    get_file-Holds later
      (Holds-Allocates (alloc_handle-Allocates b (file f) start now stored past) e)
