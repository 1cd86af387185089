-- ===== src/Fs/Handles.antt =====
-- internal/fs/handles.go: the table of handles of the file system backend, and Shutdown of backend.go.
-- The lock is held over each operation. The arrays `handles` and `lastUsed` are functions of the index,
-- which is below 64. A handle is the int32 that the client sends, as its 32 bits: from 2^31 on it is
-- negative. Readings of the clock are arguments, in the order in which the code takes them.
pub mod Allocation
pub mod Release
pub mod Paths
use udpfsd.Common.{
  ℕ, zero, suc, ◌+◌, ◌-◌, ◌*◌, ◌^◌, Bool, true, false, Option, none, some, List, [], ◌∷◌, ◌++◌, ltb,
  leb, ◌==◌, ◌&&◌, not, if◌then◌else◌, update, same_name, Outcome, ok, panic, ◌>>=◌,
}

-- What the table needs of a `fileHandle`; `object` tells open files apart, also two of one name.
pub record FileHandle : Type 0 where
  pub object : ℕ
  pub name : List ℕ
  pub read_only : Bool

-- `entries` is read from the directory when it is opened.
pub record DirHandle : Type 0 where
  pub dir_path : List ℕ
  pub entries : List (List ℕ)
  pub index : ℕ

pub data Handle : Type 0 where
  file : FileHandle → Handle
  dir : DirHandle → Handle

-- `closed` lists the handles on which `Close` was called.
pub record Backend : Type 0 where
  pub handles : ℕ → Option Handle
  pub last_used : ℕ → ℕ
  pub block_device : Option FileHandle
  pub closed : List Handle

abbrev pub max_handles : ℕ
max_handles = 64

-- time.Hour, in nanoseconds
abbrev pub handle_max_last_used : ℕ
handle_max_last_used = 3600 * 10 ^ 9

abbrev pub set_handle : ℕ → Option Handle → Backend → Backend
set_handle i h b = record b { handles = update b.handles i h }

abbrev pub touch : ℕ → ℕ → Backend → Backend
touch i now b = record b { last_used = update b.last_used i now }

abbrev pub close_handle : Handle → Backend → Backend
close_handle h b = record b { closed = b.closed ++ (h ∷ []) }

-- What the loop of `allocHandle` comes to: a free index, or the index and time of the oldest handle
pub data Scan : Type 0 where
  free : ℕ → Scan
  oldest : ℕ → ℕ → Scan

-- The loop of `allocHandle` from index `i` on, with `n` indices left
unfoldable pub scan : ℕ → ℕ → ℕ → ℕ → Backend → Scan
scan zero i old stamp b = oldest old stamp
scan (suc n) i old stamp b =
    let older = ltb (b.last_used i) stamp in
    let rest =
      scan n (i + 1) (if older then i else old) (if older then b.last_used i else stamp) b in
    elim (b.handles i) [ none ↦ free i | some _ ↦ rest ]

-- The new handle, or -EMFILE
pub data Allocated : Type 0 where
  handle : ℕ → Allocated
  too_many : Allocated

abbrev pub close_slot : ℕ → Backend → Backend
close_slot i b = elim (b.handles i) [ none ↦ b | some h ↦ close_handle h b ]

unfoldable pub allocate : Scan → Handle → ℕ → ℕ → Backend → Allocated × Backend
allocate (free i) h now stored b = (handle (i + 1), touch i stored (set_handle i (some h) b))
allocate (oldest i stamp) h now stored b =
    if leb handle_max_last_used (now - stamp)
    then (handle (i + 1), touch i stored (set_handle i (some h) (close_slot i b)))
    else (too_many, b)

unfoldable pub alloc_handle : Handle → ℕ → ℕ → ℕ → Backend → Allocated × Backend
alloc_handle h start now stored b = allocate (scan max_handles 0 0 start b) h now stored b

-- The index of a handle, if the array has it: Go panics at any other.
unfoldable pub slot_of : ℕ → Option ℕ
slot_of n = if leb 1 n && leb n max_handles then some (n - 1) else none

abbrev pub free_slot : ℕ → Backend → Backend
free_slot i b = elim (b.handles i) [ none ↦ b | some h ↦ set_handle i none (close_handle h b) ]

-- `freeHandle`, which returns true
unfoldable pub free_handle : ℕ → Backend → Outcome Backend
free_handle n b =
    if n == 0 then ok b else elim (slot_of n) [ none ↦ panic | some i ↦ ok (free_slot i b) ]

unfoldable pub file_at : ℕ → ℕ → Backend → Option FileHandle × Backend
file_at i now b = elim (b.handles i) [
  | none ↦ (none, b)
  | some h ↦ elim h [ file f ↦ (some f, touch i now b) | dir d ↦ (none, b) ]
]

unfoldable pub get_file : ℕ → ℕ → Backend → Outcome (Option FileHandle × Backend)
get_file n now b =
    if leb (2 ^ 31) n
    then ok (none, b)
    else if n == 0
    then ok (b.block_device, b)
    else elim (slot_of n) [ none ↦ panic | some i ↦ ok (file_at i now b) ]

unfoldable pub dir_at : ℕ → ℕ → Backend → Option DirHandle × Backend
dir_at i now b = elim (b.handles i) [
  | none ↦ (none, b)
  | some h ↦ elim h [ file f ↦ (none, b) | dir d ↦ (some d, touch i now b) ]
]

unfoldable pub get_dir : ℕ → ℕ → Backend → Outcome (Option DirHandle × Backend)
get_dir n now b = elim (slot_of n) [ none ↦ panic | some i ↦ ok (dir_at i now b) ]

-- The loop of `Shutdown`, from `fd` on
unfoldable pub shutdown_loop : ℕ → ℕ → Backend → Outcome Backend
shutdown_loop zero fd b = ok b
shutdown_loop (suc n) fd b = free_handle fd b >>= shutdown_loop n (fd + 1)

unfoldable pub shutdown : Backend → Outcome Backend
shutdown b = shutdown_loop max_handles 0 b

-- The file in a slot, if there is one and it has this name
abbrev pub named : List ℕ → Option Handle → Option FileHandle
named path none = none
named path (some (dir d)) = none
named path (some (file f)) = if same_name f.name path then some f else none

-- The loops of `getFileByPath` and `getFileState` from index `i` on, with `n` indices left
unfoldable pub path_loop : ℕ → ℕ → List ℕ → ℕ → Backend → Option FileHandle × Backend
path_loop zero i path now b = (none, b)
path_loop (suc n) i path now b =
    let rest = path_loop n (i + 1) path now b in
    elim (named path (b.handles i)) [ none ↦ rest | some f ↦ (some f, touch i now b) ]

unfoldable pub get_file_by_path : List ℕ → ℕ → Backend → Option FileHandle × Backend
get_file_by_path path now b = path_loop max_handles 0 path now b

unfoldable pub state_loop : ℕ → ℕ → List ℕ → Backend → Bool × Bool
state_loop zero i path b = (false, true)
state_loop (suc n) i path b =
    let rest = state_loop n (i + 1) path b in
    elim (named path (b.handles i)) [ none ↦ rest | some f ↦ (true, f.read_only) ]

-- Whether the file is open, and if so whether read-only
unfoldable pub get_file_state : List ℕ → Backend → Bool × Bool
get_file_state path b = state_loop max_handles 0 path b

-- `newFileHandle`: the methods of the object are its identity and its name.
abbrev pub new_file_handle : ℕ → List ℕ → Bool → Handle
new_file_handle object name read_only =
    file (record { object = object; name = name; read_only = read_only })
