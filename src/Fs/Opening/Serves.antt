-- ===== src/Fs/Opening/Serves.antt =====
-- internal/fs/fileops.go and backend.go: the backend keeps what udpfs relies on, for handles of its table.
use udpfsd.Common.{
  ℕ, ◌≡◌, refl, arith, Bool, not, ◌&&◌, Option, none, some, List, [], ◌∷◌, ok, Returns, Returns-ok,
  Returns-bind, Bool-cases, inl, inr,
}
use udpfsd.Udpfs.Codes.{Error}
use udpfsd.Udpfs.Interface.{Result, done, failed, Opened}
use udpfsd.Udpfs.Replies.{FileInfo}
use udpfsd.Udpfs.Laws.{GivesInTable, IsShort, IsFileSystem}
use udpfsd.Fs.Handles.{
  FileHandle, DirHandle, get_file_state, Handle, Backend, Allocated, handle, too_many,
}
use udpfsd.Fs.Files.{
  Storage, Files, close_file, read_file, write_start, write_chunk, complete_write, seek_file, bread,
  bwrite_start, start_write, put_chunk, finish_write, seek_from, start_bwrite,
}
use udpfsd.Fs.Opening.{
  Settings, Os, file_system, open_path, open_resolved, open_listed, open_plain, open_object_at,
  give_handle, stat_or_panic, dread, dread_from, next_entry, entry_result, make_dir, remove_path,
  change, getstat, getstat_of, not_opened, is_there, wants_create, is_refused, stat_found,
  stat_resolved,
}
use udpfsd.Fs.Opening.Once.{StatWorks}
use udpfsd.Fs.Opening.Total.{
  ShortNames, SmallSectors, GivenIn, alloc_handle-in, free_handle-Returns, get_dir-Returns,
}
use udpfsd.Fs.Opening.OnHandles.{
  locate-Returns, located, start_write-kept, start_bwrite-kept, put_chunk-kept, finish_write-kept,
  seek_from-kept, read_from-Returns, seek_sectors-Returns,
}

abbrev Gave : {W : Type 0} → Opened × Files W → Type 0
Gave r = GivesInTable r.0 × SmallSectors r.1

module _ {W : Type 0} where
  give_handle-Gave :
      (a : Allocated × Backend) (x : Option Handle) (info : FileInfo) (s : Files W)
      → GivenIn a.0
      → SmallSectors s
      → Returns Gave (give_handle a x (done info) s)
  unfolding give_handle stat_or_panic
  give_handle-Gave (handle h, b) x info s k i = Returns-ok _ ((λ e small. k), i)
  give_handle-Gave (too_many, b) none info s k i =
      Returns-ok _ ((λ e small. absurd (omega arith)), i)
  give_handle-Gave (too_many, b) (some x) info s k i =
      Returns-ok _ ((λ e small. absurd (omega arith)), i)

  refused : (e : Error) (s : Files W) → SmallSectors s → Returns Gave (ok (not_opened e, s))
  refused e s i = Returns-ok _ ((λ f small. absurd (cc)), i)

module _ {W : Type 0} (cfg : Settings) (os : Os W) (works : StatWorks os) where
  open_listed-Gave :
      (path : List ℕ) (a : Result (List (List ℕ))) (s : Files W)
      → os.list_dir path s.world ≡ a
      → SmallSectors s
      → Returns Gave (open_listed os path a s)
  unfolding open_listed
  open_listed-Gave path (failed e) s p i = refused e s i
  open_listed-Gave path (done names) s p i =
      let w = works.of_listed path s.world names p in
      rw w.1 (give_handle-Gave _ _ w.0 s (alloc_handle-in _ s.clock s.backend) i)

  open_object_at-Gave :
      (path : List ℕ) (flag : ℕ) (a : Result ℕ) (s : Files W)
      → SmallSectors s
      → Returns Gave (open_object_at os path flag a s)
  unfolding open_object_at
  open_object_at-Gave path flag (failed e) s i = refused e s i
  open_object_at-Gave path flag (done n) s i =
      let w = works.of_object n s.world in
      rw w.1 (give_handle-Gave _ _ w.0 s (alloc_handle-in _ s.clock s.backend) i)

  open_plain-Gave :
      (path : List ℕ) (flag : ℕ) (s : Files W)
      → SmallSectors s
      → Returns Gave (open_plain os path flag s)
  unfolding open_plain
  open_plain-Gave path flag s i =
      elim (Bool-cases (not (is_there (os.stat_path path s.world)) && not (wants_create flag))) [
        | inl e ↦ rw e (refused _ s i)
        | inr e ↦ rw e (open_object_at-Gave path flag _ _ i)
      ]

  open_resolved-Gave :
      (o : Option (List ℕ)) (flag : ℕ) (is_dir : Bool) (s : Files W)
      → SmallSectors s
      → Returns Gave (open_resolved cfg os o flag is_dir s)
  unfolding open_resolved
  open_resolved-Gave none flag is_dir s i = refused _ s i
  open_resolved-Gave (some path) flag is_dir s i =
      elim (Bool-cases (is_refused cfg flag (get_file_state path s.backend))) [
        | inl e ↦ rw e (refused _ s i)
        | inr e ↦ elim (Bool-cases is_dir) [
          | inl d ↦ rw (e, d) (open_listed-Gave path _ s refl i)
          | inr d ↦ rw (e, d) (open_plain-Gave path flag s i)
        ]
      ]

  change-Returns :
      (f : List ℕ → W → Option Error × W) (o : Option (List ℕ)) (s : Files W)
      → SmallSectors s
      → Returns (λ r. SmallSectors r.1) (change cfg f o s)
  unfolding change
  change-Returns f none s i = Returns-ok _ i
  change-Returns f (some path) s i = elim (Bool-cases cfg.is_read_only) [
    | inl e ↦ rw e (Returns-ok _ i)
    | inr e ↦ rw e (Returns-ok _ i)
  ]

  stat_found-kept :
      (path : List ℕ) (p : Option FileHandle × Backend) (s : Files W)
      → SmallSectors s
      → SmallSectors (stat_found os path p s).1
  unfolding stat_found
  stat_found-kept path (none, b) s i = i
  stat_found-kept path (some f, b) s i = i

  stat_resolved-kept :
      (o : Option (List ℕ)) (s : Files W) → SmallSectors s → SmallSectors (stat_resolved os o s).1
  unfolding stat_resolved
  stat_resolved-kept none s i = i
  stat_resolved-kept (some path) s i = stat_found-kept path _ s i

  getstat_of-Returns :
      (path : List ℕ) (o : Option FileHandle) (s : Files W)
      → SmallSectors s
      → Returns (λ r. SmallSectors r.1) (getstat_of cfg os path o s)
  unfolding getstat_of
  getstat_of-Returns [] (some d) s i = Returns-ok _ i
  getstat_of-Returns [] none s i = Returns-ok _ (stat_resolved-kept _ s i)
  getstat_of-Returns (x ∷ xs) o s i = Returns-ok _ (stat_resolved-kept _ s i)

  entry_result-short :
      (short : ShortNames os) (path name : List ℕ) (w : W) (r : Result FileInfo)
      → os.entry_info path name w ≡ r
      → IsShort (entry_result name r)
  unfolding entry_result
  entry_result-short short path name w (done info) e = short path name w info e
  entry_result-short short path name w (failed x) e = tt

  next_entry-Short :
      (short : ShortNames os) (h : ℕ) (d : DirHandle) (names : List (List ℕ)) (s : Files W)
      → SmallSectors s
      → IsShort (next_entry os h d names s).0 × SmallSectors (next_entry os h d names s).1
  unfolding next_entry
  next_entry-Short short h d [] s i = (tt, i)
  next_entry-Short short h d (name ∷ rest) s i =
      (entry_result-short short d.dir_path name s.world _ refl, i)

  dread_from-Short :
      (short : ShortNames os) (h : ℕ) (o : Option DirHandle) (s : Files W)
      → SmallSectors s
      → IsShort (dread_from os h o s).0 × SmallSectors (dread_from os h o s).1
  unfolding dread_from
  dread_from-Short short h none s i = (tt, i)
  dread_from-Short short h (some d) s i = next_entry-Short short h d _ s i

  -- The backend, with sectors of at most 512 bytes, over an operating system where Stat of what was opened
  -- or listed succeeds and names of entries have at most 1024 bytes: every operation returns that gets a
  -- handle of the table of 64 (Dread not that of the block device) and asks for at most the buffer, and
  -- Open gives handles of the table only.
  pub file_system-IsFileSystem :
      (st : Storage W) → ShortNames os → IsFileSystem SmallSectors (file_system cfg os st)
  unfolding file_system close_file read_file write_start write_chunk complete_write seek_file bread
      bwrite_start dread make_dir remove_path open_path getstat
  file_system-IsFileSystem st short = record {
    open_path = λ path flag is_dir s i. open_resolved-Gave _ flag is_dir s i;
    close_handle =
        λ h s k i. Returns-bind _ _ (free_handle-Returns h s.backend k) (λ b u. Returns-ok _ i);
    read_handle = λ h size cap s k room i.
        Returns-bind _ _ (locate-Returns h s k i)
          (λ r j. read_from-Returns st size cap r.0 r.1 room j);
    write_start = λ h s k i. located h s start_write k i start_write-kept;
    write_chunk = λ h number size total bytes s k i.
        located h s (put_chunk number total bytes) k i (put_chunk-kept number total bytes);
    complete_write = λ h s k i. located h s (finish_write st h) k i (finish_write-kept st h);
    lseek = λ h offset whence s k i.
        located h s (seek_from st offset whence) k i (seek_from-kept st offset whence);
    dread = λ h s k n i.
        Returns-bind _ _ (get_dir-Returns h s.clock s.backend k n)
          (λ r u. Returns-ok _ (dread_from-Short short h r.0 _ i));
    getstat = λ path s i. getstat_of-Returns path _ s i;
    mkdir = λ path s i. Returns-bind _ _ (change-Returns os.make_dir _ s i) (λ r j. Returns-ok _ j);
    remove = λ path s i. change-Returns os.remove_path _ s i;
    rmdir = λ path s i. change-Returns os.remove_path _ s i;
    bread = λ h sector count cap s k room i.
        Returns-bind _ _ (locate-Returns h s k i)
          (λ r j. seek_sectors-Returns st h sector count cap r.0 r.1 room j);
    bwrite_start = λ h sector count s k i.
        located h s (start_bwrite sector count) k i (start_bwrite-kept sector count);
  }
