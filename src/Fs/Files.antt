-- ===== src/Fs/Files.antt =====
-- internal/fs/fileops.go: the operations on open files, and the state of a chunked write of
-- internal/fs/handles.go. What the operating system or a compressed image does with an object is the
-- parameter `Storage`. The lock of a file is held over each operation; `clock` is the clock's reading.
pub mod Writing
pub mod Requests
pub mod Delivery
pub mod Oversized
mod Tests
use udpfsd.Common.{
  ℕ, ◌+◌, ◌-◌, ◌*◌, ◌^◌, ◌==◌, ◌≡◌, Bool, true, false, not, Option, none, some, List, [], ◌∷◌, ◌++◌,
  if◌then◌else◌, ltb, leb, length, take, update, u16, u32, u64, Outcome, ok, panic, ◌>>=◌,
}
use udpfsd.Udpfs.Codes.{Error, permission, other, block_device_handle}
use udpfsd.Udpfs.Interface.{Result, done, failed, FileSystem}
use udpfsd.Fs.Handles.{FileHandle, Backend, get_file, free_handle}

-- How a read ends
pub data ReadEnd : Type 0 where
  fine eof closed_file : ReadEnd
  broken : Error → ReadEnd

-- Read, Write and Seek of an object, which `object` of a file handle names
pub record Storage (W : Type 0) : Type 0 where
  pub read_object : ℕ → ℕ → W → (List ℕ × ReadEnd) × W
  pub write_object : ℕ → List ℕ → W → Result ℕ × W
  pub seek_object : ℕ → ℕ → ℕ → W → Result ℕ × W

-- writeState
pub record WriteState : Type 0 where
  pub buffer : List ℕ
  pub sector_number : ℕ
  pub sector_count : ℕ
  pub total_chunks : ℕ
  pub received_chunks : ℕ
  pub block_write : Bool

-- The table of handles, the write state of each object, and the rest of the world
pub record Files (W : Type 0) : Type 0 where
  pub backend : Backend
  pub writes : ℕ → WriteState
  pub sector_size : ℕ
  pub clock : ℕ
  pub world : W

-- os.ErrInvalid, of which errToErrno makes EIO
abbrev pub err_invalid : Error
err_invalid = other

-- Neither the end of the file nor a closed file is an error.
unfoldable pub read_result : List ℕ → ReadEnd → Result (ℕ × List ℕ)
read_result bytes fine = done (u32 (length bytes), bytes)
read_result bytes eof = done (u32 (length bytes), bytes)
read_result bytes closed_file = done (u32 (length bytes), bytes)
read_result bytes (broken e) = failed e

abbrev pub add_chunk : ℕ → List ℕ → WriteState → WriteState
add_chunk total bytes w = record w {
  buffer = w.buffer ++ bytes;
  total_chunks = total;
  received_chunks = u16 (w.received_chunks + 1);
}

-- The result where the bytes were written
unfoldable pub written : Bool → Result ℕ → Result ℕ
written block (failed e) = failed e
written true (done n) = done 0
written false (done n) = done (u32 n)

unfoldable pub sectors_result : List ℕ → ReadEnd → Result (List ℕ)
sectors_result bytes fine = done bytes
sectors_result bytes eof = done bytes
sectors_result bytes closed_file = failed other
sectors_result bytes (broken e) = failed e

module _ {W : Type 0} where
  abbrev pub locate : ℕ → Files W → Outcome (Option FileHandle × Files W)
  locate h s = get_file h s.clock s.backend >>= λ r. ok (r.0, record s { backend = r.1 })

  abbrev pub set_writes : ℕ → WriteState → Files W → Files W
  set_writes i w s = record s { writes = update s.writes i w }

  abbrev pub sector_size_of : ℕ → Files W → ℕ
  sector_size_of h s = if not (h == block_device_handle) then 512 else s.sector_size

  -- Close: `freeHandle` always returns true.
  unfoldable pub close_file : ℕ → Files W → Outcome (Option Error × Files W)
  close_file h s = free_handle h s.backend >>= λ b. ok (none, record s { backend = b })

  -- A size above the buffer's is a slice out of range.
  unfoldable pub read_from :
      Storage W → ℕ → ℕ → Option FileHandle → Files W → Outcome (Result (ℕ × List ℕ) × Files W)
  read_from st size cap none s = ok (failed err_invalid, s)
  read_from st size cap (some f) s =
      if ltb cap size
      then panic
      else let r = st.read_object f.object size s.world in
        ok (read_result r.0.0 r.0.1, record s { world = r.1 })

  unfoldable pub read_file :
      Storage W → ℕ → ℕ → ℕ → Files W → Outcome (Result (ℕ × List ℕ) × Files W)
  read_file st h size cap s = locate h s >>= λ r. read_from st size cap r.0 r.1

  unfoldable pub start_write : Option FileHandle → Files W → Option Error × Files W
  start_write none s = (some err_invalid, s)
  start_write (some f) s = if f.read_only then (some permission, s) else (
    none,
    set_writes f.object
        (record (s.writes f.object) {
          block_write = false;
          buffer = [];
          total_chunks = 0;
          received_chunks = 0;
        })
        s,
  )

  unfoldable pub write_start : ℕ → Files W → Outcome (Option Error × Files W)
  write_start h s = locate h s >>= λ r. ok (start_write r.0 r.1)

  unfoldable pub put_chunk : ℕ → ℕ → List ℕ → Option FileHandle → Files W → Result Bool × Files W
  put_chunk number total bytes none s = (failed err_invalid, s)
  put_chunk number total bytes (some f) s =
      let w = s.writes f.object in
      if not (number == w.received_chunks) then (done false, s) else (
        done (leb total (u16 (w.received_chunks + 1))),
        set_writes f.object (add_chunk total bytes w) s,
      )

  -- The size that the chunk's header gives is not used.
  unfoldable pub write_chunk : ℕ → ℕ → ℕ → ℕ → List ℕ → Files W → Outcome (Result Bool × Files W)
  write_chunk h number size total bytes s =
      locate h s >>= λ r. ok (put_chunk number total bytes r.0 r.1)

  unfoldable pub write_all : Storage W → Bool → ℕ → List ℕ → Files W → Result ℕ × Files W
  write_all st block i bytes s =
      let r = st.write_object i bytes s.world in (written block r.0, record s { world = r.1 })

  unfoldable pub write_sectors : Storage W → ℕ → List ℕ → Result ℕ → Files W → Result ℕ × Files W
  write_sectors st i bytes (failed e) s = (failed e, s)
  write_sectors st i bytes (done p) s = write_all st true i bytes s

  -- `io.SeekStart` is 0.
  unfoldable pub finish_write : Storage W → ℕ → Option FileHandle → Files W → Result ℕ × Files W
  finish_write st h none s = (failed err_invalid, s)
  finish_write st h (some f) s =
      let w = s.writes f.object in
      let expected = w.sector_count * sector_size_of h s in
      let bytes = if ltb expected (length w.buffer) then take expected w.buffer else w.buffer in
      let r = st.seek_object f.object (u64 (w.sector_number * sector_size_of h s)) 0 s.world in
      if w.block_write
      then write_sectors st f.object bytes r.0 (record s { world = r.1 })
      else write_all st false f.object w.buffer s

  unfoldable pub complete_write : Storage W → ℕ → Files W → Outcome (Result ℕ × Files W)
  complete_write st h s = locate h s >>= λ r. ok (finish_write st h r.0 r.1)

  -- The position -1, and no error, where there is no file
  unfoldable pub seek_from : Storage W → ℕ → ℕ → Option FileHandle → Files W → Result ℕ × Files W
  seek_from st offset whence none s = (done (2 ^ 64 - 1), s)
  seek_from st offset whence (some f) s =
      let r = st.seek_object f.object offset whence s.world in (r.0, record s { world = r.1 })

  unfoldable pub seek_file : Storage W → ℕ → ℕ → ℕ → Files W → Outcome (Result ℕ × Files W)
  seek_file st h offset whence s = locate h s >>= λ r. ok (seek_from st offset whence r.0 r.1)

  -- More bytes than the buffer has are a slice out of range.
  unfoldable pub read_sectors :
      Storage W → ℕ → ℕ → ℕ → Result ℕ → Files W → Outcome (Result (List ℕ) × Files W)
  read_sectors st i n cap (failed e) s = ok (failed e, s)
  read_sectors st i n cap (done p) s =
      if ltb cap n
      then panic
      else let r = st.read_object i n s.world in
        ok (sectors_result r.0.0 r.0.1, record s { world = r.1 })

  unfoldable pub seek_sectors :
      Storage W → ℕ → ℕ → ℕ → ℕ → Option FileHandle → Files W → Outcome (Result (List ℕ) × Files W)
  seek_sectors st h sector count cap none s = ok (failed err_invalid, s)
  seek_sectors st h sector count cap (some f) s =
      let size = sector_size_of h s in
      let r = st.seek_object f.object (u64 (sector * size)) 0 s.world in
      read_sectors st f.object (count * size) cap r.0 (record s { world = r.1 })

  unfoldable pub bread : Storage W → ℕ → ℕ → ℕ → ℕ → Files W → Outcome (Result (List ℕ) × Files W)
  bread st h sector count cap s = locate h s >>= λ r. seek_sectors st h sector count cap r.0 r.1

  unfoldable pub start_bwrite : ℕ → ℕ → Option FileHandle → Files W → Option Error × Files W
  start_bwrite sector count none s = (some err_invalid, s)
  start_bwrite sector count (some f) s = if f.read_only then (some permission, s) else (
    none,
    set_writes f.object
        (record {
          buffer = [];
          sector_number = sector;
          sector_count = count;
          total_chunks = 0;
          received_chunks = 0;
          block_write = true;
        })
        s,
  )

  unfoldable pub bwrite_start : ℕ → ℕ → ℕ → Files W → Outcome (Option Error × Files W)
  bwrite_start h sector count s = locate h s >>= λ r. ok (start_bwrite sector count r.0 r.1)

  -- The backend's operations on open files, beside those of `base` on paths and directories
  unfoldable pub on_files : Storage W → FileSystem (Files W) → FileSystem (Files W)
  on_files st base = record base {
    close_handle = close_file;
    read_handle = read_file st;
    write_start = write_start;
    write_chunk = write_chunk;
    complete_write = complete_write st;
    lseek = seek_file st;
    bread = bread st;
    bwrite_start = bwrite_start;
  }
