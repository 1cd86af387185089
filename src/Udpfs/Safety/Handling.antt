-- ===== src/Udpfs/Safety/Handling.antt =====
-- udpfs/handlers.go: what a handler does with a handle of the table and a size that the buffer has.
use udpfsd.Common.{
  ℕ, ◌*◌, ◌≤◌, ◌≡◌, ◌≢◌, get_u16, get_u32, refl, arith, Bool, true, false, Option, none, some, List,
  [], ◌==◌,
}
use udpfsd.Udpfs.Codes.{minus, einval, block_device_handle}
use udpfsd.Udpfs.Replies.{no_stat}
use udpfsd.Udpfs.Interface.{FileSystem}
use udpfsd.Udpfs.Connection.{Connection, buffer_size}
use udpfsd.Udpfs.Handlers.{
  after_open, open_anew, reuse_or_open, open_path, handle_open, after_close, close_handle,
  handle_close, after_read, read_handle, handle_read, after_lseek, lseek, handle_lseek, after_dread,
  dread, handle_dread, after_getstat, getstat, handle_getstat, after_change, mkdir, handle_mkdir,
  remove, handle_remove, rmdir, handle_rmdir, after_bread, bread, handle_bread,
}
use udpfsd.Udpfs.Laws.{
  InTable, GivesInTable, IsFileSystem, IsConnection, SafeResult, IsShort, answered_lem, call_then,
  call_lem,
}
use udpfsd.Udpfs.Safety.Sending.{
  send_open_reply-Safe, send_lseek_reply-Safe, send_getstat_reply-Safe, send_close_reply-Safe,
  send_result_reply_only-Safe, send_dread_reply-Safe, send_read_result-Safe,
  lookup_handle-IsConnection,
}
use udpfsd.Udpfs.Safety.Answers.{
  if-SafeResult, after_close-Safe, after_read-Safe, after_lseek-Safe, after_getstat-Safe,
  after_change-Safe, after_bread-Safe, after_dread-Safe, after_open-Safe,
}

module _ {F : Type 0} {P : F → Type 0} {fs : FileSystem F} (laws : IsFileSystem P fs) where
  open_anew-Safe :
      (path : List ℕ) (flag : ℕ) (is_dir : Bool) (c : Connection F)
      → IsConnection P c
      → SafeResult P (open_anew fs path flag is_dir c)
  unfolding open_anew
  open_anew-Safe path flag is_dir c i =
      call_then GivesInTable (fs.open_path path flag is_dir) (after_open path flag is_dir) c i
        (laws.open_path path flag is_dir c.files i.of_files) (after_open-Safe path flag is_dir)

  reuse_or_open-Safe :
      (path : List ℕ) (flag : ℕ) (is_dir : Bool) (cached : Option (ℕ × Connection F))
      (c : Connection F)
      → ((r : ℕ × Connection F) → cached ≡ some r → IsConnection P r.1)
      → IsConnection P c
      → SafeResult P (reuse_or_open fs path flag is_dir cached c)
  unfolding reuse_or_open
  reuse_or_open-Safe path flag is_dir none c k i = open_anew-Safe path flag is_dir c i
  reuse_or_open-Safe path flag is_dir (some (h, d)) c k i =
      answered_lem 0 (send_open_reply-Safe h no_stat d (k (h, d) refl))

  open_path-Safe :
      (path : List ℕ) (flag : ℕ) (is_dir : Bool) (c : Connection F)
      → IsConnection P c
      → SafeResult P (open_path fs path flag is_dir c)
  unfolding open_path
  open_path-Safe path flag true c i =
      reuse_or_open-Safe path flag true none c (λ r e. absurd (cc)) i
  open_path-Safe path flag false c i =
      reuse_or_open-Safe path flag false _ c (λ r e. lookup_handle-IsConnection path flag c r e i) i

  close_handle-Safe :
      (h : ℕ) (c : Connection F) → InTable h → IsConnection P c → SafeResult P (close_handle fs h c)
  unfolding close_handle
  close_handle-Safe h c k i =
      if-SafeResult (h == block_device_handle) (answered_lem h (send_close_reply-Safe h c i)) (
        call_lem (fs.close_handle h) (after_close h) c i (laws.close_handle h c.files k i.of_files)
          (after_close-Safe h))

  read_handle-Safe :
      (h size : ℕ) (c : Connection F)
      → InTable h
      → size ≤ buffer_size
      → IsConnection P c
      → SafeResult P (read_handle fs h size c)
  unfolding read_handle
  read_handle-Safe h size c k room i =
      call_lem (fs.read_handle h size buffer_size) after_read c i
        (laws.read_handle h size buffer_size c.files k room i.of_files) after_read-Safe

  bread-Safe :
      (h sector count : ℕ) (c : Connection F)
      → InTable h
      → count * 512 ≤ buffer_size
      → IsConnection P c
      → SafeResult P (bread fs h sector count c)
  unfolding bread
  bread-Safe h sector count c k room i =
      call_lem (fs.bread h sector count buffer_size) after_bread c i
        (laws.bread h sector count buffer_size c.files k room i.of_files) after_bread-Safe

  dread-Safe :
      (h : ℕ) (c : Connection F)
      → InTable h
      → h ≢ 0
      → IsConnection P c
      → SafeResult P (dread fs h c)
  unfolding dread
  dread-Safe h c k some_handle i =
      call_then IsShort (fs.dread h) after_dread c i (laws.dread h c.files k some_handle i.of_files)
        after_dread-Safe

  lseek-Safe :
      (h offset whence : ℕ) (c : Connection F)
      → InTable h
      → IsConnection P c
      → SafeResult P (lseek fs h offset whence c)
  unfolding lseek
  lseek-Safe h offset whence c k i =
      call_lem (fs.lseek h offset whence) (after_lseek) c i
        (laws.lseek h offset whence c.files k i.of_files) (after_lseek-Safe)

  getstat-Safe :
      (path : List ℕ) (c : Connection F) → IsConnection P c → SafeResult P (getstat fs path c)
  unfolding getstat
  getstat-Safe path c i =
      call_lem (fs.getstat path) (after_getstat) c i (laws.getstat path c.files i.of_files)
        (after_getstat-Safe)

  mkdir-Safe :
      (path : List ℕ) (c : Connection F) → IsConnection P c → SafeResult P (mkdir fs path c)
  unfolding mkdir
  mkdir-Safe path c i =
      call_lem (fs.mkdir path) (after_change) c i (laws.mkdir path c.files i.of_files)
        (after_change-Safe)

  remove-Safe :
      (path : List ℕ) (c : Connection F) → IsConnection P c → SafeResult P (remove fs path c)
  unfolding remove
  remove-Safe path c i =
      call_lem (fs.remove path) (after_change) c i (laws.remove path c.files i.of_files)
        (after_change-Safe)

  rmdir-Safe :
      (path : List ℕ) (c : Connection F) → IsConnection P c → SafeResult P (rmdir fs path c)
  unfolding rmdir
  rmdir-Safe path c i =
      call_lem (fs.rmdir path) (after_change) c i (laws.rmdir path c.files i.of_files)
        (after_change-Safe)

  pub handle_open-Safe :
      (payload : List ℕ) (c : Connection F)
      → IsConnection P c
      → SafeResult P (handle_open fs payload c)
  unfolding handle_open
  handle_open-Safe payload c i =
      if-SafeResult _ (answered_lem _ (send_open_reply-Safe _ no_stat c i))
        (open_path-Safe _ _ _ c i)

  pub handle_close-Safe :
      (payload : List ℕ) (c : Connection F)
      → InTable (get_u32 payload 4)
      → IsConnection P c
      → SafeResult P (handle_close fs payload c)
  unfolding handle_close
  handle_close-Safe payload c k i =
      if-SafeResult _ (answered_lem _ (send_close_reply-Safe _ c i)) (close_handle-Safe _ c k i)

  pub handle_read-Safe :
      (payload : List ℕ) (c : Connection F)
      → InTable (get_u32 payload 4)
      → get_u32 payload 8 ≤ buffer_size
      → IsConnection P c
      → SafeResult P (handle_read fs payload c)
  unfolding handle_read
  handle_read-Safe payload c k room i =
      if-SafeResult _ (answered_lem _ (send_read_result-Safe _ [] c i))
        (read_handle-Safe _ _ c k room i)

  pub handle_lseek-Safe :
      (payload : List ℕ) (c : Connection F)
      → InTable (get_u32 payload 4)
      → IsConnection P c
      → SafeResult P (handle_lseek fs payload c)
  unfolding handle_lseek
  handle_lseek-Safe payload c k i =
      if-SafeResult _ (answered_lem _ (send_lseek_reply-Safe _ c i)) (lseek-Safe _ _ _ c k i)

  pub handle_dread-Safe :
      (payload : List ℕ) (c : Connection F)
      → InTable (get_u32 payload 4)
      → get_u32 payload 4 ≢ 0
      → IsConnection P c
      → SafeResult P (handle_dread fs payload c)
  unfolding handle_dread
  handle_dread-Safe payload c k some_handle i =
      if-SafeResult _
        (answered_lem _ (send_dread_reply-Safe (minus einval) [] no_stat c (omega arith) i))
        (dread-Safe _ c k some_handle i)

  pub handle_getstat-Safe :
      (payload : List ℕ) (c : Connection F)
      → IsConnection P c
      → SafeResult P (handle_getstat fs payload c)
  unfolding handle_getstat
  handle_getstat-Safe payload c i =
      if-SafeResult _ (answered_lem _ (send_getstat_reply-Safe _ no_stat c i)) (getstat-Safe _ c i)

  pub handle_mkdir-Safe :
      (payload : List ℕ) (c : Connection F)
      → IsConnection P c
      → SafeResult P (handle_mkdir fs payload c)
  unfolding handle_mkdir
  handle_mkdir-Safe payload c i =
      if-SafeResult _ (answered_lem _ (send_result_reply_only-Safe _ c i)) (mkdir-Safe _ c i)

  pub handle_remove-Safe :
      (payload : List ℕ) (c : Connection F)
      → IsConnection P c
      → SafeResult P (handle_remove fs payload c)
  unfolding handle_remove
  handle_remove-Safe payload c i =
      if-SafeResult _ (answered_lem _ (send_result_reply_only-Safe _ c i)) (remove-Safe _ c i)

  pub handle_rmdir-Safe :
      (payload : List ℕ) (c : Connection F)
      → IsConnection P c
      → SafeResult P (handle_rmdir fs payload c)
  unfolding handle_rmdir
  handle_rmdir-Safe payload c i =
      if-SafeResult _ (answered_lem _ (send_result_reply_only-Safe _ c i)) (rmdir-Safe _ c i)

  pub handle_bread-Safe :
      (payload : List ℕ) (c : Connection F)
      → InTable (get_u32 payload 4)
      → get_u16 payload 2 * 512 ≤ buffer_size
      → IsConnection P c
      → SafeResult P (handle_bread fs payload c)
  unfolding handle_bread
  handle_bread-Safe payload c k room i =
      if-SafeResult _ (answered_lem _ (send_read_result-Safe _ [] c i))
        (bread-Safe _ _ _ c k room i)
