-- ===== src/Udpfs/Client.antt =====
-- udpfs/handlers.go: the requests as a client means them, their bytes, and what each of them asks for.
-- `pad` is whatever follows the zero behind a path.
pub mod Served
use udpfsd.Common.{
  ℕ, ◌%◌, ◌/◌, ◌^◌, ◌<◌, ◌≤◌, ◌+◌, Bool, true, false, List, [], ◌∷◌, ◌++◌, if◌then◌else◌, length,
  put_u16, put_u32, shr, Outcome,
}
use udpfsd.Udpfs.MsgType
use udpfsd.Udpfs.Codes.{udpfs_flags_to_os_flags}
use udpfsd.Udpfs.Interface.{FileSystem}
use udpfsd.Udpfs.Requests.{Chunk}
use udpfsd.Udpfs.Requests.Parsing.{NoZero}
use udpfsd.Udpfs.Connection.{Connection}
use udpfsd.Udpfs.Handlers.{
  open_path, close_handle, read_handle, lseek, dread, getstat, mkdir, remove, rmdir, bread,
}
use udpfsd.Udpfs.Writes.{write_start, write_data, bwrite_start, first_chunk, give_chunk}

pub data Request : Type 0 where
  open_file : Bool → ℕ → List ℕ → List ℕ → Request
  close_file read_dir : ℕ → Request
  read_file : ℕ → ℕ → Request
  write_file : ℕ → ℕ → List ℕ → Request
  send_chunk : Chunk → Request
  seek_file : ℕ → ℕ → ℕ → Request
  stat_path make_dir remove_file remove_dir : List ℕ → List ℕ → Request
  read_sectors : ℕ → ℕ → ℕ → Request
  write_sectors : ℕ → ℕ → ℕ → List ℕ → Request

abbrev pub put_u64 : ℕ → List ℕ
put_u64 n = put_u32 (n % 2 ^ 32) ++ put_u32 (n / 2 ^ 32)

abbrev pub path_bytes : List ℕ → List ℕ → List ℕ
path_bytes path pad = path ++ (0 ∷ pad)

-- A chunk behind its two first bytes
abbrev pub chunk_bytes : Chunk → List ℕ
chunk_bytes k = put_u16 k.number ++ (put_u16 k.size ++ (put_u16 k.total ++ k.bytes))

unfoldable pub request_bytes : Request → List ℕ
request_bytes (open_file is_dir flags path pad) =
    MsgType.open_req
    ∷ (if is_dir then 1 else 0)
    ∷ (put_u16 flags ++ (0 ∷ 0 ∷ 0 ∷ 0 ∷ path_bytes path pad))
request_bytes (close_file h) = MsgType.close_req ∷ 0 ∷ 0 ∷ 0 ∷ put_u32 h
request_bytes (read_dir h) = MsgType.dread_req ∷ 0 ∷ 0 ∷ 0 ∷ put_u32 h
request_bytes (read_file h size) = MsgType.read_req ∷ 0 ∷ 0 ∷ 0 ∷ (put_u32 h ++ put_u32 size)
request_bytes (write_file h size rest) =
    MsgType.write_req ∷ 0 ∷ 0 ∷ 0 ∷ (put_u32 h ++ (put_u32 size ++ rest))
request_bytes (send_chunk k) = MsgType.write_data ∷ 0 ∷ chunk_bytes k
request_bytes (seek_file h offset whence) =
    MsgType.lseek_req ∷ whence ∷ 0 ∷ 0 ∷ (put_u32 h ++ put_u64 offset)
request_bytes (stat_path path pad) = MsgType.getstat_req ∷ 0 ∷ 0 ∷ 0 ∷ path_bytes path pad
request_bytes (make_dir path pad) = MsgType.mkdir_req ∷ 0 ∷ 0 ∷ 0 ∷ path_bytes path pad
request_bytes (remove_file path pad) = MsgType.remove_req ∷ 0 ∷ 0 ∷ 0 ∷ path_bytes path pad
request_bytes (remove_dir path pad) = MsgType.rmdir_req ∷ 0 ∷ 0 ∷ 0 ∷ path_bytes path pad
request_bytes (read_sectors h sector count) =
    MsgType.bread_req ∷ 0 ∷ (put_u16 count ++ (put_u32 h ++ put_u64 sector))
request_bytes (write_sectors h sector count rest) =
    MsgType.bwrite_req ∷ 0 ∷ (put_u16 count ++ (put_u32 h ++ (put_u64 sector ++ rest)))

abbrev pub IsChunk : Chunk → Type 0
IsChunk k = (k.number < 2 ^ 16) × (k.size < 2 ^ 16) × (k.total < 2 ^ 16) × (length k.bytes ≤ k.size)

-- Every number fits its field, and a path has no zero.
abbrev pub IsRequest : Request → Type 0
IsRequest (open_file is_dir flags path pad) = (flags < 2 ^ 16) × NoZero path
IsRequest (close_file h) = h < 2 ^ 32
IsRequest (read_dir h) = h < 2 ^ 32
IsRequest (read_file h size) = (h < 2 ^ 32) × (size < 2 ^ 32)
IsRequest (write_file h size rest) = h < 2 ^ 32
IsRequest (send_chunk k) = IsChunk k
IsRequest (seek_file h offset whence) = (h < 2 ^ 32) × (offset < 2 ^ 64)
IsRequest (stat_path path pad) = NoZero path
IsRequest (make_dir path pad) = NoZero path
IsRequest (remove_file path pad) = NoZero path
IsRequest (remove_dir path pad) = NoZero path
IsRequest (read_sectors h sector count) = (h < 2 ^ 32) × (sector < 2 ^ 64) × (count < 2 ^ 16)
IsRequest (write_sectors h sector count rest) = (h < 2 ^ 32) × (sector < 2 ^ 64) × (count < 2 ^ 16)

-- The operation that a request asks for
module _ {F : Type 0} where
  unfoldable pub serve : FileSystem F → Request → Connection F → Outcome (ℕ × Connection F)
  serve fs (open_file is_dir flags path pad) c =
      open_path fs path (udpfs_flags_to_os_flags flags) is_dir c
  serve fs (close_file h) c = close_handle fs h c
  serve fs (read_dir h) c = dread fs h c
  serve fs (read_file h size) c = read_handle fs h size c
  serve fs (write_file h size rest) c =
      write_start fs h (length (request_bytes (write_file h size rest))) rest c
  serve fs (send_chunk k) c = write_data fs (length (request_bytes (send_chunk k))) k c
  serve fs (seek_file h offset whence) c = lseek fs h offset whence c
  serve fs (stat_path path pad) c = getstat fs path c
  serve fs (make_dir path pad) c = mkdir fs path c
  serve fs (remove_file path pad) c = remove fs path c
  serve fs (remove_dir path pad) c = rmdir fs path c
  serve fs (read_sectors h sector count) c = bread fs h sector count c
  serve fs (write_sectors h sector count rest) c =
      bwrite_start fs h sector count (length (request_bytes (write_sectors h sector count rest)))
        rest c
