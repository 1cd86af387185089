-- ===== src/Fs/Opening/Total.antt =====
-- internal/fs/handles.go: which handles the table gives, and at which its lookups return.
use udpfsd.Common.{
  ℕ, zero, suc, ◌+◌, ◌-◌, ◌^◌, ◌≤◌, ◌<◌, ◌==◌, ◌≡◌, ◌≢◌, arith, false, List, ltb, leb, length,
  Returns, Returns-ok, Bool-cases, Option-cases, inl, inr,
}
use udpfsd.Udpfs.Interface.{done}
use udpfsd.Udpfs.Replies.{FileInfo}
use udpfsd.Udpfs.Laws.{InTable}
use udpfsd.Fs.Handles.{
  Handle, Backend, Allocated, handle, too_many, max_handles, Scan, free, oldest, scan, allocate,
  handle_max_last_used, get_file, get_dir, free_handle, alloc_handle,
}
use udpfsd.Fs.Handles.Allocation.{slot_of-in}
use udpfsd.Fs.Files.{Files}
use udpfsd.Fs.Opening.{Os}

-- An entry of a directory that has an info has a name of at most 1024 bytes.
abbrev pub ShortNames : {W : Type 0} → Os W → Type 0
ShortNames {W} os =
    (path name : List ℕ) (w : W) (info : FileInfo)
    → os.entry_info path name w ≡ done info
    → length name ≤ 1024

-- The sectors of the block device have the usual size, or less.
abbrev pub SmallSectors : {W : Type 0} → Files W → Type 0
SmallSectors s = s.sector_size ≤ 512

-- The index that the loop of allocHandle comes to
abbrev index_of : Scan → ℕ
index_of (free i) = i
index_of (oldest i stamp) = i

scan-in :
    (n i old stamp : ℕ) (b : Backend) → i + n ≤ 64 → old < 64 → index_of (scan n i old stamp b) < 64
unfolding scan
scan-in zero i old stamp b h k = k
scan-in (suc n) i old stamp b h k = elim (Option-cases (b.handles i)) [
  | inl e ↦ rw (scan, e) (omega arith)
  | inr (x, e) ↦ elim (Bool-cases (ltb (b.last_used i) stamp)) [
    | inl t ↦ rw (scan, e, t) (scan-in n (i + 1) i _ b (omega arith) (omega arith))
    | inr t ↦ rw (scan, e, t) (scan-in n (i + 1) old stamp b (omega arith) k)
  ]
]

-- The handle that is given, if there is one
abbrev pub GivenIn : Allocated → Type 0
GivenIn (handle h) = InTable h
GivenIn too_many = Unit

allocate-in :
    (r : Scan) (x : Handle) (now stored : ℕ) (b : Backend)
    → index_of r < 64
    → GivenIn (allocate r x now stored b).0
unfolding allocate
allocate-in (free i) x now stored b h = omega arith
allocate-in (oldest i stamp) x now stored b h =
    elim (Bool-cases (leb handle_max_last_used (now - stamp))) [
      | inl e ↦ rw e (omega arith)
      | inr e ↦ rw e tt
    ]

pub alloc_handle-in :
    (x : Handle) (now : ℕ) (b : Backend) → GivenIn (alloc_handle x now now now b).0
unfolding alloc_handle
alloc_handle-in x now b =
    allocate-in _ x now now b (scan-in max_handles 0 0 now b (omega arith) (omega arith))

pub free_handle-Returns :
    (h : ℕ) (b : Backend) → InTable h → Returns (λ c. Unit {0}) (free_handle h b)
unfolding free_handle
free_handle-Returns h b k = elim (Bool-cases (h == 0)) [
  | inl e ↦ rw e (Returns-ok _ tt)
  | inr e ↦ rw (e, slot_of-in h (ground arith) k) (Returns-ok _ tt)
]

pub get_dir-Returns :
    (h now : ℕ) (b : Backend) → InTable h → h ≢ 0 → Returns (λ r. Unit {0}) (get_dir h now b)
unfolding get_dir
get_dir-Returns h now b k n = rw (get_dir, slot_of-in h (ground arith) k) (Returns-ok _ tt)

pub get_file-Returns :
    (h now : ℕ) (b : Backend) → InTable h → Returns (λ r. Unit {0}) (get_file h now b)
unfolding get_file
get_file-Returns h now b k =
    let positive : leb (2 ^ 31) h ≡ false = ground arith in
    elim (Bool-cases (h == 0)) [
      | inl e ↦ rw (positive, e) (Returns-ok _ tt)
      | inr e ↦ rw (positive, e, slot_of-in h (ground arith) k) (Returns-ok _ tt)
    ]
