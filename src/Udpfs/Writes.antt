-- ===== src/Udpfs/Writes.antt =====
-- udpfs/handlers.go: the requests to write. A write comes in chunks, the first of them perhaps with the
-- request, and WRITE_DONE answers the last one.
use udpfsd.Common.{
  ℕ, ◌==◌, Bool, true, false, Option, none, some, List, length, drop, leb, ltb, if◌then◌else◌,
  get_u16, get_u32, Outcome, ok, ◌>>=◌,
}
use udpfsd.Udpfs.Codes.{Error, ebadf, err_code}
use udpfsd.Udpfs.Interface.{FileSystem, Result, done, failed}
use udpfsd.Udpfs.Requests.{Chunk, chunk_from, int64_from}
use udpfsd.Udpfs.Connection.{
  Connection, no_handle, call, acknowledge, send_write_done, set_write_handle,
}
use udpfsd.Udpfs.Handlers.{answered}

module _ {F : Type 0} where
  -- An ACK as the answer, and the status
  abbrev pub acknowledged : ℕ → Connection F → Outcome (ℕ × Connection F)
  acknowledged status c = ok (status, acknowledge true c)

  unfoldable pub after_complete : ℕ → Result ℕ → Connection F → Outcome (ℕ × Connection F)
  after_complete status (failed e) c = answered (err_code e) (send_write_done (err_code e) c)
  after_complete status (done n) c = answered status (send_write_done n c)

  unfoldable pub after_chunk :
      FileSystem F → ℕ → ℕ → Result Bool → Connection F → Outcome (ℕ × Connection F)
  after_chunk fs h status (failed e) c = answered (err_code e) (send_write_done (err_code e) c)
  after_chunk fs h status (done true) c =
      call (fs.complete_write h) c >>= λ r. after_complete status r.0 r.1
  after_chunk fs h status (done false) c = acknowledged status c

  -- A chunk for the handle; `status` is the length of the request
  unfoldable pub give_chunk :
      FileSystem F → ℕ → ℕ → Chunk → Connection F → Outcome (ℕ × Connection F)
  give_chunk fs h status k c = call (fs.write_chunk h k.number k.size k.total k.bytes) c >>= λ r.
      after_chunk fs h status r.0 r.1

  -- What follows a request's own fields: nothing, or a first chunk
  unfoldable pub first_chunk :
      FileSystem F → ℕ → ℕ → List ℕ → Connection F → Outcome (ℕ × Connection F)
  first_chunk fs h status rest c =
      if leb (length rest) 0
      then acknowledged 0 c
      else if ltb (length rest) 8
      then acknowledged 0 c
      else give_chunk fs h status (chunk_from rest) c

  -- After `WriteStart` or `BwriteStart`
  unfoldable pub after_start :
      FileSystem F → ℕ → ℕ → List ℕ → Option Error → Connection F → Outcome (ℕ × Connection F)
  after_start fs h status rest (some e) c = answered (err_code e) (send_write_done (err_code e) c)
  after_start fs h status rest none c = first_chunk fs h status rest (set_write_handle h c)

  unfoldable pub write_start :
      FileSystem F → ℕ → ℕ → List ℕ → Connection F → Outcome (ℕ × Connection F)
  write_start fs h status rest c =
      call (fs.write_start h) c >>= λ r. after_start fs h status rest r.0 r.1

  unfoldable pub handle_write_req :
      FileSystem F → List ℕ → Connection F → Outcome (ℕ × Connection F)
  handle_write_req fs payload c =
      if ltb (length payload) 12
      then acknowledged 0 c
      else write_start fs (get_u32 payload 4) (length payload) (drop 12 payload) c

  -- EBADF, a positive number, where no write is active
  unfoldable pub write_data : FileSystem F → ℕ → Chunk → Connection F → Outcome (ℕ × Connection F)
  write_data fs status k c =
      if c.active_write_handle == no_handle
      then acknowledged ebadf c
      else give_chunk fs c.active_write_handle status k c

  unfoldable pub handle_write_data :
      FileSystem F → List ℕ → Connection F → Outcome (ℕ × Connection F)
  handle_write_data fs payload c =
      if ltb (length payload) 8
      then acknowledged 0 c
      else write_data fs (length payload) (chunk_from payload) c

  unfoldable pub bwrite_start :
      FileSystem F → ℕ → ℕ → ℕ → ℕ → List ℕ → Connection F → Outcome (ℕ × Connection F)
  bwrite_start fs h sector count status rest c =
      call (fs.bwrite_start h sector count) c >>= λ r. after_start fs h status rest r.0 r.1

  unfoldable pub handle_bwrite_req :
      FileSystem F → List ℕ → Connection F → Outcome (ℕ × Connection F)
  handle_bwrite_req fs payload c =
      if ltb (length payload) 16
      then acknowledged 0 c
      else bwrite_start fs (get_u32 payload 4) (int64_from 8 payload) (get_u16 payload 2)
          (length payload) (drop 16 payload) c
