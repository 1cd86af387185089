-- ===== src/Udpfs/Handlers.antt =====
-- udpfs/handlers.go: the handlers, but for those that write. An int status is its low 32 bits.
use udpfsd.Common.{
  ℕ, ◌-◌, ◌^◌, Bool, not, Option, none, some, List, [], length, leb, ltb, ◌==◌, if◌then◌else◌, u32,
  byte_at, get_u16, get_u32, Outcome, ok, ◌>>=◌,
}
use udpfsd.Udpfs.Codes.{
  Error, minus, einval, err_code, block_device_handle, udpfs_flags_to_os_flags,
}
use udpfsd.Udpfs.Replies.{StatInfo, no_stat}
use udpfsd.Udpfs.Interface.{FileSystem, Result, done, failed, Opened}
use udpfsd.Udpfs.Requests.{path_from, int64_from}
use udpfsd.Udpfs.Connection.{
  Connection, buffer_size, call, send_open_reply, send_read_result, send_lseek_reply,
  send_dread_reply, send_getstat_reply, send_close_reply, send_result_reply_only, lookup_handle,
  add_handle, remove_handle,
}

-- The position -1
abbrev pub no_position : ℕ
no_position = 2 ^ 64 - 1

module _ {F : Type 0} where
  -- A reply, and the status that is logged
  abbrev pub answered : ℕ → Outcome (Connection F) → Outcome (ℕ × Connection F)
  answered status o = o >>= λ c. ok (status, c)

  unfoldable pub after_open : List ℕ → ℕ → Bool → Opened → Connection F → Outcome (ℕ × Connection F)
  after_open path flag is_dir o c = elim o.error [
    | some e ↦ answered (err_code e) (send_open_reply (err_code e) o.stat c)
    | none ↦
        if leb (2 ^ 31) o.handle
        then answered o.handle (send_open_reply o.handle o.stat c)
        else answered 0 (send_open_reply o.handle o.stat (add_handle o.handle path flag is_dir c))
  ]

  unfoldable pub open_anew :
      FileSystem F → List ℕ → ℕ → Bool → Connection F → Outcome (ℕ × Connection F)
  open_anew fs path flag is_dir c =
      call (fs.open_path path flag is_dir) c >>= λ r. after_open path flag is_dir r.0 r.1

  -- With a cached handle, and without
  unfoldable pub reuse_or_open :
      FileSystem F
      → List ℕ
      → ℕ
      → Bool
      → Option (ℕ × Connection F)
      → Connection F
      → Outcome (ℕ × Connection F)
  reuse_or_open fs path flag is_dir (some (h, d)) c = answered 0 (send_open_reply h no_stat d)
  reuse_or_open fs path flag is_dir none c = open_anew fs path flag is_dir c

  unfoldable pub open_path :
      FileSystem F → List ℕ → ℕ → Bool → Connection F → Outcome (ℕ × Connection F)
  open_path fs path flag is_dir c =
      reuse_or_open fs path flag is_dir (if is_dir then none else lookup_handle path flag c) c

  unfoldable pub handle_open : FileSystem F → List ℕ → Connection F → Outcome (ℕ × Connection F)
  handle_open fs payload c =
      if ltb (length payload) 8
      then answered (minus einval) (send_open_reply (minus einval) no_stat c)
      else open_path fs (path_from 8 payload) (udpfs_flags_to_os_flags (get_u16 payload 2))
          (not (byte_at payload 1 == 0)) c

  unfoldable pub after_close : ℕ → Option Error → Connection F → Outcome (ℕ × Connection F)
  after_close h (some e) c = answered (err_code e) (send_close_reply (err_code e) c)
  after_close h none c = answered 0 (send_close_reply 0 (remove_handle h c))

  unfoldable pub close_handle : FileSystem F → ℕ → Connection F → Outcome (ℕ × Connection F)
  close_handle fs h c =
      if h == block_device_handle
      then answered h (send_close_reply h c)
      else (call (fs.close_handle h) c >>= λ r. after_close h r.0 r.1)

  unfoldable pub handle_close : FileSystem F → List ℕ → Connection F → Outcome (ℕ × Connection F)
  handle_close fs payload c =
      if ltb (length payload) 8
      then answered (minus einval) (send_close_reply (minus einval) c)
      else close_handle fs (get_u32 payload 4) c

  unfoldable pub after_read : Result (ℕ × List ℕ) → Connection F → Outcome (ℕ × Connection F)
  after_read (failed e) c = answered (err_code e) (send_read_result (err_code e) [] c)
  after_read (done (n, bytes)) c = answered n (send_read_result n bytes c)

  unfoldable pub read_handle : FileSystem F → ℕ → ℕ → Connection F → Outcome (ℕ × Connection F)
  read_handle fs h size c = call (fs.read_handle h size buffer_size) c >>= λ r. after_read r.0 r.1

  unfoldable pub handle_read : FileSystem F → List ℕ → Connection F → Outcome (ℕ × Connection F)
  handle_read fs payload c =
      if ltb (length payload) 12
      then answered (minus einval) (send_read_result (minus einval) [] c)
      else read_handle fs (get_u32 payload 4) (get_u32 payload 8) c

  unfoldable pub after_lseek : Result ℕ → Connection F → Outcome (ℕ × Connection F)
  after_lseek (failed e) c = answered (minus 1) (send_lseek_reply no_position c)
  after_lseek (done position) c = answered 0 (send_lseek_reply position c)

  unfoldable pub lseek : FileSystem F → ℕ → ℕ → ℕ → Connection F → Outcome (ℕ × Connection F)
  lseek fs h offset whence c = call (fs.lseek h offset whence) c >>= λ r. after_lseek r.0 r.1

  unfoldable pub handle_lseek : FileSystem F → List ℕ → Connection F → Outcome (ℕ × Connection F)
  handle_lseek fs payload c =
      if ltb (length payload) 16
      then answered (minus 1) (send_lseek_reply no_position c)
      else lseek fs (get_u32 payload 4) (int64_from 8 payload) (byte_at payload 1) c

  unfoldable pub after_dread :
      Result (Option (List ℕ × StatInfo)) → Connection F → Outcome (ℕ × Connection F)
  after_dread (failed e) c = answered (err_code e) (send_dread_reply (err_code e) [] no_stat c)
  after_dread (done none) c = answered 0 (send_dread_reply 0 [] no_stat c)
  after_dread (done (some (name, st))) c = answered 0 (send_dread_reply 1 name st c)

  unfoldable pub dread : FileSystem F → ℕ → Connection F → Outcome (ℕ × Connection F)
  dread fs h c = call (fs.dread h) c >>= λ r. after_dread r.0 r.1

  unfoldable pub handle_dread : FileSystem F → List ℕ → Connection F → Outcome (ℕ × Connection F)
  handle_dread fs payload c =
      if ltb (length payload) 8
      then answered (minus einval) (send_dread_reply (minus einval) [] no_stat c)
      else dread fs (get_u32 payload 4) c

  unfoldable pub after_getstat : Result StatInfo → Connection F → Outcome (ℕ × Connection F)
  after_getstat (failed e) c = answered (err_code e) (send_getstat_reply (err_code e) no_stat c)
  after_getstat (done st) c = answered 0 (send_getstat_reply 0 st c)

  unfoldable pub getstat : FileSystem F → List ℕ → Connection F → Outcome (ℕ × Connection F)
  getstat fs path c = call (fs.getstat path) c >>= λ r. after_getstat r.0 r.1

  unfoldable pub handle_getstat : FileSystem F → List ℕ → Connection F → Outcome (ℕ × Connection F)
  handle_getstat fs payload c =
      if ltb (length payload) 4
      then answered (minus einval) (send_getstat_reply (minus einval) no_stat c)
      else getstat fs (path_from 4 payload) c

  unfoldable pub after_change : Option Error → Connection F → Outcome (ℕ × Connection F)
  after_change (some e) c = answered (err_code e) (send_result_reply_only (err_code e) c)
  after_change none c = answered 0 (send_result_reply_only 0 c)

  unfoldable pub mkdir : FileSystem F → List ℕ → Connection F → Outcome (ℕ × Connection F)
  mkdir fs path c = call (fs.mkdir path) c >>= λ r. after_change r.0 r.1

  unfoldable pub handle_mkdir : FileSystem F → List ℕ → Connection F → Outcome (ℕ × Connection F)
  handle_mkdir fs payload c =
      if ltb (length payload) 4
      then answered (minus einval) (send_result_reply_only (minus einval) c)
      else mkdir fs (path_from 4 payload) c

  unfoldable pub remove : FileSystem F → List ℕ → Connection F → Outcome (ℕ × Connection F)
  remove fs path c = call (fs.remove path) c >>= λ r. after_change r.0 r.1

  unfoldable pub handle_remove : FileSystem F → List ℕ → Connection F → Outcome (ℕ × Connection F)
  handle_remove fs payload c =
      if ltb (length payload) 4
      then answered (minus einval) (send_result_reply_only (minus einval) c)
      else remove fs (path_from 4 payload) c

  unfoldable pub rmdir : FileSystem F → List ℕ → Connection F → Outcome (ℕ × Connection F)
  rmdir fs path c = call (fs.rmdir path) c >>= λ r. after_change r.0 r.1

  unfoldable pub handle_rmdir : FileSystem F → List ℕ → Connection F → Outcome (ℕ × Connection F)
  handle_rmdir fs payload c =
      if ltb (length payload) 4
      then answered (minus einval) (send_result_reply_only (minus einval) c)
      else rmdir fs (path_from 4 payload) c

  unfoldable pub after_bread : Result (List ℕ) → Connection F → Outcome (ℕ × Connection F)
  after_bread (failed e) c = answered (err_code e) (send_read_result (err_code e) [] c)
  after_bread (done bytes) c =
      answered (length bytes) (send_read_result (u32 (length bytes)) bytes c)

  unfoldable pub bread : FileSystem F → ℕ → ℕ → ℕ → Connection F → Outcome (ℕ × Connection F)
  bread fs h sector count c =
      call (fs.bread h sector count buffer_size) c >>= λ r. after_bread r.0 r.1

  unfoldable pub handle_bread : FileSystem F → List ℕ → Connection F → Outcome (ℕ × Connection F)
  handle_bread fs payload c =
      if ltb (length payload) 16
      then answered (minus einval) (send_read_result (minus einval) [] c)
      else bread fs (get_u32 payload 4) (int64_from 8 payload) (get_u16 payload 2) c
