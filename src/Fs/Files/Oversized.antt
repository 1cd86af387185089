-- ===== src/Fs/Files/Oversized.antt =====
-- udpfs/handlers.go over internal/fs/fileops.go: a request to read more than the buffer holds.
use udpfsd.Common.{ℕ, ◌*◌, ◌^◌, ◌<◌, ◌==◌, ◌≡◌, refl, arith, true, false, ltb, lt→ltb, u64, panic}
use udpfsd.Udpfs.Interface.{done, FileSystem}
use udpfsd.Udpfs.Connection.{Connection, buffer_size}
use udpfsd.Udpfs.Handlers.{read_handle, bread}
use udpfsd.Udpfs.Dispatch.{handle_payload}
use udpfsd.Udpfs.Client.{read_file, read_sectors, request_bytes, serve}
use udpfsd.Udpfs.Client.Served.{handle_payload-serve}
use udpfsd.Fs.Handles.{FileHandle}
use udpfsd.Fs.Files.{Storage, Files, read_from, seek_sectors, sector_size_of, on_files}
use udpfsd.Fs.Files.Writing.{Holds, locate-Holds}

module _ {W : Type 0} (st : Storage W) (base : FileSystem (Files W)) where
  read_panics :
      (h size : ℕ) (f : FileHandle) (c : Connection (Files W))
      → Holds h f c.files.backend
      → 128 * 1024 < size
      → size < 2 ^ 32
      → handle_payload (on_files st base) (request_bytes (read_file h size)) c ≡ panic
  unfolding serve read_handle on_files udpfsd.Fs.Files.read_file read_from
  read_panics h size f c i large fits =
      rw
        (handle_payload-serve (on_files st base) c (read_file h size)
          (omega (arith, i.below), fits))
        (rw (locate-Holds h f c.files i, lt→ltb buffer_size size large) refl)

  sectors_panic :
      (h sector count : ℕ) (f : FileHandle) (c : Connection (Files W)) (position : ℕ)
      → Holds h f c.files.backend
      → 256 < count
      → count < 2 ^ 16
      → sector < 2 ^ 64
      → (st.seek_object f.object (u64 (sector * 512)) 0 c.files.world).0 ≡ done position
      → handle_payload (on_files st base) (request_bytes (read_sectors h sector count)) c ≡ panic
  unfolding serve bread on_files udpfsd.Fs.Files.bread seek_sectors udpfsd.Fs.Files.read_sectors
  sectors_panic h sector count f c position i large fits small e =
      let l : ltb buffer_size (count * 512) ≡ true = lt→ltb _ _ (omega arith) in
      let n : (h == 0) ≡ false = ground (arith, i.above) in
      rw
        (handle_payload-serve (on_files st base) c (read_sectors h sector count)
          (omega (arith, i.below), small, fits))
        (rw (locate-Holds h f c.files i) (rw n (rw (e, l) refl)))

  -- A request to read more than 128 KiB from an open file makes the server panic, and so does one to read more
  -- than 256 sectors of an open file that can be positioned at the first of them.
  pub oversized_panics :
      (h size sector count position : ℕ) (f : FileHandle) (c : Connection (Files W))
      → Holds h f c.files.backend
      → 128 * 1024 < size
      → size < 2 ^ 32
      → 256 < count
      → count < 2 ^ 16
      → sector < 2 ^ 64
      → (st.seek_object f.object (u64 (sector * 512)) 0 c.files.world).0 ≡ done position
      → (handle_payload (on_files st base) (request_bytes (read_file h size)) c ≡ panic)
        × (handle_payload (on_files st base) (request_bytes (read_sectors h sector count)) c
            ≡ panic)
  oversized_panics h size sector count position f c i large fits many few small e = (
    read_panics h size f c i large fits,
    sectors_panic h sector count f c position i many few small e,
  )
