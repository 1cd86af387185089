-- ===== src/Udpfs/Client/Served.antt =====
-- udpfs/handlers.go: HandlePayload does what the request asks for.
use udpfsd.Common.{
  ℕ, ◌+◌, ◌/◌, ◌%◌, ◌^◌, ◌<◌, ◌≡◌, refl, ap, arith, Bool, true, false, List, ◌∷◌, length, get_u32,
  le→ltb,
}
use udpfsd.Udpfs.MsgType
use udpfsd.Udpfs.Interface.{FileSystem}
use udpfsd.Udpfs.Codes.{udpfs_flags_to_os_flags}
use udpfsd.Udpfs.Requests.{path_from, int64_from, Chunk, chunk_from}
use udpfsd.Udpfs.Requests.Parsing.{NoZero, word, half, path_from-append, int64_lem}
use udpfsd.Udpfs.Connection.{Connection}
use udpfsd.Udpfs.Handlers.{
  open_path, close_handle, read_handle, lseek, dread, getstat, mkdir, remove, rmdir, bread,
  handle_open, handle_close, handle_read, handle_lseek, handle_dread, handle_getstat, handle_mkdir,
  handle_remove, handle_rmdir, handle_bread,
}
use udpfsd.Udpfs.Writes.{
  write_start, write_data, bwrite_start, handle_write_req, handle_write_data, handle_bwrite_req,
}
use udpfsd.Udpfs.Dispatch.{dispatch, handle_payload}
use udpfsd.Udpfs.Client.{
  Request, open_file, close_file, read_dir, read_file, write_file, send_chunk, seek_file, stat_path,
  make_dir, remove_file, remove_dir, read_sectors, write_sectors, chunk_bytes, request_bytes,
  IsChunk, IsRequest, serve,
}

long_int :
    (b : List ℕ) (i n : ℕ)
    → get_u32 b i ≡ n % 2 ^ 32
    → get_u32 b (i + 4) ≡ n / 2 ^ 32
    → n < 2 ^ 64
    → int64_from i b ≡ n
unfolding int64_from
long_int b i n low high h = rw (low, high) (int64_lem n h)

-- The chunk is read back, whatever the two bytes before it.
chunk_served : (x y : ℕ) (k : Chunk) → IsChunk k → chunk_from (x ∷ y ∷ chunk_bytes k) ≡ k
unfolding chunk_from
chunk_served x y k (n, s, t, l) =
    rw (half k.number n, half k.size s, half k.total t, le→ltb k.size (length k.bytes) l) refl

module _ {F : Type 0} (fs : FileSystem F) (c : Connection F) where
  open_served :
      (is_dir : Bool) (flags : ℕ) (path pad : List ℕ)
      → flags < 2 ^ 16
      → NoZero path
      → handle_open fs (request_bytes (open_file is_dir flags path pad)) c
        ≡ open_path fs path (udpfs_flags_to_os_flags flags) is_dir c
  unfolding handle_open request_bytes
  open_served true flags path pad f w =
      let b = request_bytes (open_file true flags path pad) in
      let e : path_from 8 b ≡ path = path_from-append 8 b path pad refl w in
      rw (le→ltb (length b) 8 (omega arith), half flags f, e) refl
  open_served false flags path pad f w =
      let b = request_bytes (open_file false flags path pad) in
      let e : path_from 8 b ≡ path = path_from-append 8 b path pad refl w in
      rw (le→ltb (length b) 8 (omega arith), half flags f, e) refl

  close_served :
      (h : ℕ) → h < 2 ^ 32 → handle_close fs (request_bytes (close_file h)) c ≡ close_handle fs h c
  unfolding handle_close request_bytes
  close_served h w = ap (λ n. close_handle fs n c) (word h w)

  dread_served :
      (h : ℕ) → h < 2 ^ 32 → handle_dread fs (request_bytes (read_dir h)) c ≡ dread fs h c
  unfolding handle_dread request_bytes
  dread_served h w = ap (λ n. dread fs n c) (word h w)

  read_served :
      (h size : ℕ)
      → h < 2 ^ 32
      → size < 2 ^ 32
      → handle_read fs (request_bytes (read_file h size)) c ≡ read_handle fs h size c
  unfolding handle_read request_bytes
  read_served h size w v = rw (word h w, word size v) refl

  lseek_served :
      (h offset whence : ℕ)
      → h < 2 ^ 32
      → offset < 2 ^ 64
      → handle_lseek fs (request_bytes (seek_file h offset whence)) c ≡ lseek fs h offset whence c
  unfolding handle_lseek request_bytes
  lseek_served h offset whence w v =
      let b = request_bytes (seek_file h offset whence) in
      let e : int64_from 8 b ≡ offset =
        long_int b 8 offset (word (offset % 2 ^ 32) (omega arith))
          (word (offset / 2 ^ 32) (omega arith)) v in
      rw (word h w, e) refl

  bread_served :
      (h sector count : ℕ)
      → h < 2 ^ 32
      → sector < 2 ^ 64
      → count < 2 ^ 16
      → handle_bread fs (request_bytes (read_sectors h sector count)) c ≡ bread fs h sector count c
  unfolding handle_bread request_bytes
  bread_served h sector count w v u =
      let b = request_bytes (read_sectors h sector count) in
      let e : int64_from 8 b ≡ sector =
        long_int b 8 sector (word (sector % 2 ^ 32) (omega arith))
          (word (sector / 2 ^ 32) (omega arith)) v in
      rw (word h w, half count u, e) refl

  getstat_served :
      (path pad : List ℕ)
      → NoZero path
      → handle_getstat fs (request_bytes (stat_path path pad)) c ≡ getstat fs path c
  unfolding handle_getstat request_bytes
  getstat_served path pad w =
      let b = request_bytes (stat_path path pad) in
      let e : path_from 4 b ≡ path = path_from-append 4 b path pad refl w in
      rw (le→ltb (length b) 4 (omega arith), e) refl

  mkdir_served :
      (path pad : List ℕ)
      → NoZero path
      → handle_mkdir fs (request_bytes (make_dir path pad)) c ≡ mkdir fs path c
  unfolding handle_mkdir request_bytes
  mkdir_served path pad w =
      let b = request_bytes (make_dir path pad) in
      let e : path_from 4 b ≡ path = path_from-append 4 b path pad refl w in
      rw (le→ltb (length b) 4 (omega arith), e) refl

  remove_served :
      (path pad : List ℕ)
      → NoZero path
      → handle_remove fs (request_bytes (remove_file path pad)) c ≡ remove fs path c
  unfolding handle_remove request_bytes
  remove_served path pad w =
      let b = request_bytes (remove_file path pad) in
      let e : path_from 4 b ≡ path = path_from-append 4 b path pad refl w in
      rw (le→ltb (length b) 4 (omega arith), e) refl

  rmdir_served :
      (path pad : List ℕ)
      → NoZero path
      → handle_rmdir fs (request_bytes (remove_dir path pad)) c ≡ rmdir fs path c
  unfolding handle_rmdir request_bytes
  rmdir_served path pad w =
      let b = request_bytes (remove_dir path pad) in
      let e : path_from 4 b ≡ path = path_from-append 4 b path pad refl w in
      rw (le→ltb (length b) 4 (omega arith), e) refl

  write_req_served :
      (h size : ℕ) (rest : List ℕ)
      → h < 2 ^ 32
      → handle_write_req fs (request_bytes (write_file h size rest)) c
        ≡ write_start fs h (length (request_bytes (write_file h size rest))) rest c
  unfolding handle_write_req request_bytes
  write_req_served h size rest w =
      let b = request_bytes (write_file h size rest) in
      rw (le→ltb (length b) 12 (omega arith), word h w) refl

  write_data_served :
      (k : Chunk)
      → IsChunk k
      → handle_write_data fs (request_bytes (send_chunk k)) c
        ≡ write_data fs (length (request_bytes (send_chunk k))) k c
  unfolding handle_write_data request_bytes
  write_data_served k w =
      let b = request_bytes (send_chunk k) in
      rw (le→ltb (length b) 8 (omega arith)) (
        ap (λ j. write_data fs (length (request_bytes (send_chunk k))) j c)
          (chunk_served MsgType.write_data 0 k w))

  bwrite_served :
      (h sector count : ℕ) (rest : List ℕ)
      → h < 2 ^ 32
      → sector < 2 ^ 64
      → count < 2 ^ 16
      → handle_bwrite_req fs (request_bytes (write_sectors h sector count rest)) c
        ≡ bwrite_start fs h sector count
            (length (request_bytes (write_sectors h sector count rest)))
            rest
            c
  unfolding handle_bwrite_req request_bytes
  bwrite_served h sector count rest w v u =
      let b = request_bytes (write_sectors h sector count rest) in
      let e : int64_from 8 b ≡ sector =
        long_int b 8 sector (word (sector % 2 ^ 32) (omega arith))
          (word (sector / 2 ^ 32) (omega arith)) v in
      rw (le→ltb (length b) 16 (omega arith), word h w, half count u, e) refl

  -- A request whose numbers fit their fields, with a path that holds no zero, sent as its bytes, is
  -- handled as the operation that it asks for, with the numbers, the path and the chunk that it has,
  -- whatever follows the zero behind the path.
  pub handle_payload-serve :
      (r : Request) → IsRequest r → handle_payload fs (request_bytes r) c ≡ serve fs r c
  unfolding handle_payload dispatch request_bytes serve
  handle_payload-serve (open_file is_dir flags path pad) (f, w) =
      open_served is_dir flags path pad f w
  handle_payload-serve (close_file h) w = close_served h w
  handle_payload-serve (read_dir h) w = dread_served h w
  handle_payload-serve (read_file h size) (w, v) = read_served h size w v
  handle_payload-serve (write_file h size rest) w = write_req_served h size rest w
  handle_payload-serve (send_chunk k) w = write_data_served k w
  handle_payload-serve (seek_file h offset whence) (w, v) = lseek_served h offset whence w v
  handle_payload-serve (stat_path path pad) w = getstat_served path pad w
  handle_payload-serve (make_dir path pad) w = mkdir_served path pad w
  handle_payload-serve (remove_file path pad) w = remove_served path pad w
  handle_payload-serve (remove_dir path pad) w = rmdir_served path pad w
  handle_payload-serve (read_sectors h sector count) (w, v, u) = bread_served h sector count w v u
  handle_payload-serve (write_sectors h sector count rest) (w, v, u) =
      bwrite_served h sector count rest w v u
