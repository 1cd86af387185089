-- ===== src/Fs/Opening.antt =====
-- internal/fs/fileops.go: the operations on paths and directories, where the decompression of images is not
-- enabled. The calls of the operating system are the parameter `Os`, on resolved paths.
pub mod Exclusive
pub mod Once
pub mod Total
pub mod OnHandles
pub mod Serves
pub mod Sample
mod Tests
use udpfsd.Common.{
  ℕ, ◌+◌, ◌-◌, ◌*◌, drop, ◌/◌, ◌%◌, ◌^◌, ◌==◌, ◌&&◌, ◌||◌, Bool, true, false, not, Option, none,
  some, List, [], ◌∷◌, ◌++◌, if◌then◌else◌, leb, length, u32, u64, shr, Outcome, ok, panic, ◌>>=◌,
}
use udpfsd.Udpfs.Codes.{Error, not_exist, exist, permission, minus, o_create, has_flag}
use udpfsd.Udpfs.Interface.{Result, done, failed, Opened, FileSystem}
use udpfsd.Udpfs.Replies.{StatInfo, FileInfo, no_stat, stat_info_from_file}
use udpfsd.Fs.Handles.{
  FileHandle, DirHandle, Handle, file, dir, Backend, Allocated, handle, too_many, alloc_handle,
  close_handle, get_file_state, get_file_by_path, get_dir, set_handle, new_file_handle,
}
use udpfsd.Fs.Files.{
  Storage, Files, err_invalid, close_file, read_file, write_start, write_chunk, complete_write,
  seek_file, bread, bwrite_start,
}
use udpfsd.Fs.Paths.{slash, clean, resolve_path}

-- What the server was started with
pub record Settings : Type 0 where
  pub fs_root : List ℕ
  pub is_read_only : Bool
  pub total_sector_count : ℕ

-- The package os, and the methods of its files and of directory entries
pub record Os (W : Type 0) : Type 0 where
  pub make_dir : List ℕ → W → Option Error × W
  pub make_dirs : List ℕ → W → W
  pub remove_path : List ℕ → W → Option Error × W
  pub stat_path : List ℕ → W → Result FileInfo
  pub list_dir : List ℕ → W → Result (List (List ℕ))
  pub open_object : List ℕ → ℕ → W → Result ℕ × W
  pub stat_object : ℕ → W → Result FileInfo
  pub entry_info : List ℕ → List ℕ → W → Result FileInfo

abbrev pub emfile : ℕ
emfile = 24

abbrev pub keep_slash : ℕ → List ℕ → List ℕ
keep_slash x [] = if x == slash then x ∷ [] else []
keep_slash x (y ∷ ys) = x ∷ y ∷ ys

-- The path up to and with its last slash
abbrev pub to_last_slash : List ℕ → List ℕ
to_last_slash [] = []
to_last_slash (x ∷ xs) = keep_slash x (to_last_slash xs)

-- filepath.Dir
unfoldable pub dir_of : List ℕ → List ℕ
dir_of p = clean (to_last_slash p)

abbrev pub opened : ℕ → StatInfo → Opened
opened h st = record { handle = h; stat = st; error = none }

abbrev pub not_opened : Error → Opened
not_opened e = record { handle = 0; stat = no_stat; error = some e }

-- `flag & (O_WRONLY | O_RDWR) != 0`
abbrev pub wants_write : ℕ → Bool
wants_write flag = not (flag % 4 == 0)

-- `flag & O_CREATE != 0`
abbrev pub wants_create : ℕ → Bool
wants_create flag = has_flag flag 6

-- The two refusals: for writing where the file is open or nothing may be written, and for reading where it
-- is open for writing
unfoldable pub is_refused : Settings → ℕ → Bool × Bool → Bool
is_refused cfg flag (is_open, only_read) =
    (wants_write flag && (cfg.is_read_only || is_open))
    || (not (wants_write flag) && (is_open && not only_read))

-- StatInfoFromFile of a nil FileInfo, where the call of Stat failed, panics.
unfoldable pub stat_or_panic : Result FileInfo → Outcome StatInfo
stat_or_panic (done info) = ok (stat_info_from_file info)
stat_or_panic (failed e) = panic

unfoldable pub is_there : Result FileInfo → Bool
is_there (done info) = true
is_there (failed e) = false

-- A directory that is there already is no error.
unfoldable pub made : Option Error → Option Error
made none = none
made (some exist) = none
made (some e) = some e

unfoldable pub stat_result : Result FileInfo → Result StatInfo
stat_result (done info) = done (stat_info_from_file info)
stat_result (failed e) = failed e

-- The size of the block device
unfoldable pub device_stat : ℕ → StatInfo
device_stat bytes = record no_stat { size = u32 bytes; hisize = u32 (shr bytes 32) }

unfoldable pub entry_result : List ℕ → Result FileInfo → Result (Option (List ℕ × StatInfo))
entry_result name (done info) = done (some (name, stat_info_from_file info))
entry_result name (failed e) = done none

module _ {W : Type 0} where
  -- The handle given, with its stat, or -EMFILE; an object that got none is closed.
  unfoldable pub give_handle :
      Allocated × Backend → Option Handle → Result FileInfo → Files W → Outcome (Opened × Files W)
  give_handle (handle h, b) x info s =
      stat_or_panic info >>= λ st. ok (opened h st, record s { backend = b })
  give_handle (too_many, b) (some x) info s =
      ok (opened (minus emfile) no_stat, record s { backend = close_handle x b })
  give_handle (too_many, b) none info s =
      ok (opened (minus emfile) no_stat, record s { backend = b })

module _ {W : Type 0} (os : Os W) where
  unfoldable pub open_listed :
      List ℕ → Result (List (List ℕ)) → Files W → Outcome (Opened × Files W)
  open_listed path (failed e) s = ok (not_opened e, s)
  open_listed path (done names) s =
      let x = dir (record { dir_path = path; entries = names; index = 0 }) in
      give_handle (alloc_handle x s.clock s.clock s.clock s.backend) none
        (os.stat_path path s.world) s

  unfoldable pub open_object_at : List ℕ → ℕ → Result ℕ → Files W → Outcome (Opened × Files W)
  open_object_at path flag (failed e) s = ok (not_opened e, s)
  open_object_at path flag (done i) s =
      let x = new_file_handle i path (not (wants_write flag)) in
      give_handle (alloc_handle x s.clock s.clock s.clock s.backend) (some x)
        (os.stat_object i s.world) s

  unfoldable pub open_plain : List ℕ → ℕ → Files W → Outcome (Opened × Files W)
  open_plain path flag s =
      if not (is_there (os.stat_path path s.world)) && not (wants_create flag)
      then ok (not_opened not_exist, s)
      else let w = if wants_create flag then os.make_dirs (dir_of path) s.world else s.world in
        let r = os.open_object path flag w in
        open_object_at path flag r.0 (record s { world = r.1 })

  unfoldable pub stat_found :
      List ℕ → Option FileHandle × Backend → Files W → Result StatInfo × Files W
  stat_found path (none, b) s = (
    elim (os.stat_path path s.world) [
      | done info ↦ done (stat_info_from_file info)
      | failed e ↦ failed err_invalid
    ],
    record s { backend = b },
  )
  stat_found path (some f, b) s =
      (stat_result (os.stat_object f.object s.world), record s { backend = b })

  unfoldable pub stat_resolved : Option (List ℕ) → Files W → Result StatInfo × Files W
  stat_resolved none s = (failed err_invalid, s)
  stat_resolved (some path) s = stat_found path (get_file_by_path path s.clock s.backend) s

  -- The entries of a directory from its index on. The index moves on also past an entry without info.
  unfoldable pub next_entry :
      ℕ → DirHandle → List (List ℕ) → Files W → Result (Option (List ℕ × StatInfo)) × Files W
  next_entry h d [] s = (done none, s)
  next_entry h d (name ∷ rest) s = (
    entry_result name (os.entry_info d.dir_path name s.world),
    record s {
      backend = set_handle (h - 1) (some (dir (record d { index = d.index + 1 }))) s.backend;
    },
  )

  unfoldable pub dread_from :
      ℕ → Option DirHandle → Files W → Result (Option (List ℕ × StatInfo)) × Files W
  dread_from h none s = (failed err_invalid, s)
  dread_from h (some d) s = next_entry h d (drop d.index d.entries) s

  unfoldable pub dread : ℕ → Files W → Outcome (Result (Option (List ℕ × StatInfo)) × Files W)
  dread h s =
      get_dir h s.clock s.backend >>= λ r. ok (dread_from h r.0 (record s { backend = r.1 }))

module _ {W : Type 0} (cfg : Settings) where
  -- A change of a path that is resolved, where changes are allowed
  unfoldable pub change :
      (List ℕ → W → Option Error × W) → Option (List ℕ) → Files W → Outcome (Option Error × Files W)
  change f none s = ok (some permission, s)
  change f (some path) s =
      if cfg.is_read_only
      then ok (some permission, s)
      else let r = f path s.world in ok (r.0, record s { world = r.1 })

module _ {W : Type 0} (cfg : Settings) (os : Os W) where
  unfoldable pub open_resolved : Option (List ℕ) → ℕ → Bool → Files W → Outcome (Opened × Files W)
  open_resolved none flag is_dir s = ok (not_opened not_exist, s)
  open_resolved (some path) flag is_dir s =
      if is_refused cfg flag (get_file_state path s.backend)
      then ok (not_opened permission, s)
      else if is_dir
      then open_listed os path (os.list_dir path s.world) s
      else open_plain os path flag s

  unfoldable pub open_path : List ℕ → ℕ → Bool → Files W → Outcome (Opened × Files W)
  open_path path flag is_dir s = open_resolved (resolve_path cfg.fs_root path) flag is_dir s

  unfoldable pub make_dir : List ℕ → Files W → Outcome (Option Error × Files W)
  make_dir path s =
      change cfg os.make_dir (resolve_path cfg.fs_root path) s >>= λ r. ok (made r.0, r.1)

  unfoldable pub remove_path : List ℕ → Files W → Outcome (Option Error × Files W)
  remove_path path s = change cfg os.remove_path (resolve_path cfg.fs_root path) s

  unfoldable pub getstat_of :
      List ℕ → Option FileHandle → Files W → Outcome (Result StatInfo × Files W)
  getstat_of [] (some device) s =
      ok (done (device_stat (u64 (cfg.total_sector_count * s.sector_size))), s)
  getstat_of path device s = ok (stat_resolved os (resolve_path cfg.fs_root path) s)

  unfoldable pub getstat : List ℕ → Files W → Outcome (Result StatInfo × Files W)
  getstat path s = getstat_of path s.backend.block_device s

-- The whole backend, as the file system that a connection works on
unfoldable pub file_system : {W : Type 0} → Settings → Os W → Storage W → FileSystem (Files W)
file_system cfg os st = record {
  open_path = open_path cfg os;
  close_handle = close_file;
  read_handle = read_file st;
  write_start = write_start;
  write_chunk = write_chunk;
  complete_write = complete_write st;
  lseek = seek_file st;
  dread = dread os;
  getstat = getstat cfg os;
  mkdir = make_dir cfg os;
  remove = remove_path cfg os;
  rmdir = remove_path cfg os;
  bread = bread st;
  bwrite_start = bwrite_start;
}
