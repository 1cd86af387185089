-- ===== src/Fs/Opening/Once.antt =====
-- internal/fs/fileops.go: Open keeps a file that is open for writing open once.
use udpfsd.Common.{
  ℕ, ◌<◌, ◌==◌, ◌&&◌, ◌≡◌, inl, inr, refl, sym, ap, ◌∙◌, subst, arith, Bool, true, false, not,
  Option, none, some, List, if◌then◌else◌, Returns, Returns-ok, Bool-cases, ==_iff,
}
use udpfsd.Udpfs.Interface.{Result, done, failed}
use udpfsd.Udpfs.Replies.{FileInfo}
use udpfsd.Fs.Handles.{
  FileHandle, DirHandle, Handle, file, dir, Backend, Allocated, handle, too_many, alloc_handle,
  scan, get_file_state, max_handles,
}
use udpfsd.Fs.Files.{Files}
use udpfsd.Fs.Paths.{resolve_path}
use udpfsd.Fs.Opening.{
  Settings, Os, is_there, wants_create, wants_write, is_refused, stat_or_panic, give_handle,
  open_listed, open_object_at, open_plain, open_resolved, open_path,
}
use udpfsd.Fs.Opening.Exclusive.{
  file_or, Exclusive, state_loop-Seen, put-Exclusive, put_dir-Exclusive, allocate-slots,
}

-- Stat of an object that is open, and of a directory that was just listed, succeeds.
pub record StatWorks {W : Type 0} (os : Os W) : Type 0 where
  pub of_object : (i : ℕ) (w : W) → (info : FileInfo) × (os.stat_object i w ≡ done info)
  pub of_listed :
      (path : List ℕ) (w : W) (names : List (List ℕ))
      → os.list_dir path w ≡ done names
      → (info : FileInfo) × (os.stat_path path w ≡ done info)

abbrev pub Once : {W : Type 0} → Files W → Type 0
Once s = Exclusive s.backend.handles

not_refused :
    (cfg : Settings) (flag : ℕ) (p : Bool × Bool)
    → is_refused cfg flag p ≡ false
    → p.0 ≡ true
    → (wants_write flag ≡ false) × (p.1 ≡ true)
unfolding is_refused
not_refused cfg flag (a, b) r o = (ground arith, ground arith)

-- A handle that is not refused shares its file with handles for reading only.
shares_readers :
    (cfg : Settings) (flag : ℕ) (path : List ℕ) (b : Backend) (k : ℕ) (g : FileHandle)
    → Exclusive b.handles
    → is_refused cfg flag (get_file_state path b) ≡ false
    → k < 64
    → b.handles k ≡ some (file g)
    → g.name ≡ path
    → (not (wants_write flag) ≡ true) × (g.read_only ≡ true)
unfolding get_file_state
shares_readers cfg flag path b k g x r lt e n =
    let s = state_loop-Seen 64 0 path b k g (omega arith) (omega arith) e n in
    let q = not_refused cfg flag (get_file_state path b) r s.is_open in
    (
      ap not q.0,
      elim (Bool-cases (k == s.at)) [
        | inl p ↦
            let at : k ≡ s.at = (==_iff k s.at).0 p in
            let same : g ≡ s.f =
              ap (file_or g) (sym (subst (λ m. b.handles m ≡ some (file g)) at e) ∙ s.slot) in
            subst (λ (y : FileHandle). y.read_only ≡ true) (sym same) (sym s.state ∙ q.1)
        | inr p ↦ x.reads k s.at g s.f lt s.in_range (ground arith) e s.slot (n ∙ sym s.same_path)
      ],
    )

allocated_dir :
    (d : DirHandle) (now : ℕ) (b : Backend)
    → Exclusive b.handles
    → Exclusive (alloc_handle (dir d) now now now b).1.handles
unfolding alloc_handle
allocated_dir d now b x = elim (allocate-slots (scan max_handles 0 0 now b) (dir d) now now b) [
  | inl e ↦ rw e x
  | inr (t, e) ↦ rw e (put_dir-Exclusive b.handles t d x)
]

module _ {W : Type 0} where
  give_handle-Once :
      (a : Allocated × Backend) (x : Option Handle) (info : FileInfo) (s : Files W)
      → Exclusive a.1.handles
      → Returns (λ r. Once r.1) (give_handle a x (done info) s)
  unfolding give_handle stat_or_panic
  give_handle-Once (handle h, b) x info s e = Returns-ok _ e
  give_handle-Once (too_many, b) none info s e = Returns-ok _ e
  give_handle-Once (too_many, b) (some x) info s e = Returns-ok _ e

allocated_file :
    (f : FileHandle) (now : ℕ) (b : Backend)
    → Exclusive b.handles
    → ((k : ℕ) (g : FileHandle)
        → k < 64
        → b.handles k ≡ some (file g)
        → g.name ≡ f.name
        → (f.read_only ≡ true) × (g.read_only ≡ true))
    → Exclusive (alloc_handle (file f) now now now b).1.handles
unfolding alloc_handle
allocated_file f now b x others =
    elim (allocate-slots (scan max_handles 0 0 now b) (file f) now now b) [
      | inl e ↦ rw e x
      | inr (t, e) ↦ rw e (put-Exclusive b.handles t f x others)
    ]

module _ {W : Type 0} (cfg : Settings) (os : Os W) (works : StatWorks os) where
  open_listed-Once :
      (path : List ℕ) (a : Result (List (List ℕ))) (s : Files W)
      → os.list_dir path s.world ≡ a
      → Once s
      → Returns (λ r. Once r.1) (open_listed os path a s)
  unfolding open_listed
  open_listed-Once path (failed e) s p x = Returns-ok _ x
  open_listed-Once path (done names) s p x =
      let i = works.of_listed path s.world names p in
      rw i.1 (give_handle-Once _ _ i.0 s (allocated_dir _ s.clock s.backend x))

  open_object_at-Once :
      (path : List ℕ) (flag : ℕ) (a : Result ℕ) (s : Files W)
      → is_refused cfg flag (get_file_state path s.backend) ≡ false
      → Once s
      → Returns (λ r. Once r.1) (open_object_at os path flag a s)
  unfolding open_object_at
  open_object_at-Once path flag (failed e) s r x = Returns-ok _ x
  open_object_at-Once path flag (done i) s r x =
      let w = works.of_object i s.world in
      rw w.1 (
        give_handle-Once _ _ w.0 s (
          allocated_file _ s.clock s.backend x
            (λ k g lt e n. shares_readers cfg flag path s.backend k g x r lt e n)))

  open_plain-Once :
      (path : List ℕ) (flag : ℕ) (s : Files W)
      → is_refused cfg flag (get_file_state path s.backend) ≡ false
      → Once s
      → Returns (λ r. Once r.1) (open_plain os path flag s)
  unfolding open_plain
  open_plain-Once path flag s r x =
      elim (Bool-cases (not (is_there (os.stat_path path s.world)) && not (wants_create flag))) [
        | inl e ↦ rw e (Returns-ok _ x)
        | inr e ↦ rw e (open_object_at-Once path flag _ _ r x)
      ]

  listed_or_plain-Once :
      (path : List ℕ) (flag : ℕ) (is_dir : Bool) (s : Files W)
      → is_refused cfg flag (get_file_state path s.backend) ≡ false
      → Once s
      → Returns
          (λ r. Once r.1)
          (if is_dir
            then open_listed os path (os.list_dir path s.world) s
            else open_plain os path flag s)
  listed_or_plain-Once path flag true s r x = open_listed-Once path _ s refl x
  listed_or_plain-Once path flag false s r x = open_plain-Once path flag s r x

  open_resolved-Once :
      (path : Option (List ℕ)) (flag : ℕ) (is_dir : Bool) (s : Files W)
      → Once s
      → Returns (λ r. Once r.1) (open_resolved cfg os path flag is_dir s)
  unfolding open_resolved
  open_resolved-Once none flag is_dir s x = Returns-ok _ x
  open_resolved-Once (some path) flag is_dir s x =
      elim (Bool-cases (is_refused cfg flag (get_file_state path s.backend))) [
        | inl r ↦ rw r (Returns-ok _ x)
        | inr r ↦ rw r (listed_or_plain-Once path flag is_dir s r x)
      ]

  -- If of any two handles of files of one name each is for reading, then Open of any path with any flags
  -- returns, and so it is after it, where Stat of what was just opened or listed succeeds.
  pub open_path-Once :
      (path : List ℕ) (flag : ℕ) (is_dir : Bool) (s : Files W)
      → Once s
      → Returns (λ r. Once r.1) (open_path cfg os path flag is_dir s)
  unfolding open_path
  open_path-Once path flag is_dir s x =
      open_resolved-Once (resolve_path cfg.fs_root path) flag is_dir s x
