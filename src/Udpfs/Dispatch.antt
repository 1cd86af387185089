-- ===== src/Udpfs/Dispatch.antt =====
-- udpfs/handlers.go: HandlePayload. The status is only logged and counted, and stays the result here.
use udpfsd.Common.{ℕ, true, List, [], ◌∷◌, ◌==◌, if◌then◌else◌, Outcome, ok}
use udpfsd.Udpfs.MsgType
use udpfsd.Udpfs.Interface.{FileSystem}
use udpfsd.Udpfs.Connection.{Connection, acknowledge}
use udpfsd.Udpfs.Handlers.{
  handle_open, handle_close, handle_read, handle_lseek, handle_dread, handle_getstat, handle_mkdir,
  handle_remove, handle_rmdir, handle_bread,
}
use udpfsd.Udpfs.Writes.{handle_write_req, handle_write_data, handle_bwrite_req}

module _ {F : Type 0} where
  unfoldable pub dispatch : FileSystem F → ℕ → List ℕ → Connection F → Outcome (ℕ × Connection F)
  dispatch fs t payload c =
      if t == MsgType.open_req
      then handle_open fs payload c
      else if t == MsgType.close_req
      then handle_close fs payload c
      else if t == MsgType.read_req
      then handle_read fs payload c
      else if t == MsgType.write_req
      then handle_write_req fs payload c
      else if t == MsgType.write_data
      then handle_write_data fs payload c
      else if t == MsgType.lseek_req
      then handle_lseek fs payload c
      else if t == MsgType.dread_req
      then handle_dread fs payload c
      else if t == MsgType.getstat_req
      then handle_getstat fs payload c
      else if t == MsgType.mkdir_req
      then handle_mkdir fs payload c
      else if t == MsgType.remove_req
      then handle_remove fs payload c
      else if t == MsgType.rmdir_req
      then handle_rmdir fs payload c
      else if t == MsgType.bread_req
      then handle_bread fs payload c
      else if t == MsgType.bwrite_req
      then handle_bwrite_req fs payload c
      else ok (0, acknowledge true c)

  unfoldable pub handle_payload : FileSystem F → List ℕ → Connection F → Outcome (ℕ × Connection F)
  handle_payload fs [] c = ok (0, c)
  handle_payload fs (t ∷ rest) c = dispatch fs t (t ∷ rest) c
