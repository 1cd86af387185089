-- ===== src/Udpfs/Safety/Writing.antt =====
-- udpfs/handlers.go: the requests to write, and HandlePayload, on requests that name a handle of the table
-- and ask for what the buffer has room for.
use udpfsd.Udpfs.MsgType
use udpfsd.Common.{
  ℕ, ◌*◌, ◌≤◌, ◌≡◌, ◌≢◌, ◌==◌, ◌||◌, refl, ap, ◌∙◌, arith, ==_iff, byte_at, get_u16, get_u32,
  Bool-cases, inl, inr, Bool, true, false, Option, none, some, List, [], ◌∷◌, Returns, Returns-ok,
}
use udpfsd.Udpfs.Codes.{Error, ebadf, err_code}
use udpfsd.Udpfs.Interface.{FileSystem, Result, done, failed}
use udpfsd.Udpfs.Requests.{Chunk, chunk_from}
use udpfsd.Udpfs.Connection.{Connection, buffer_size, no_handle}
use udpfsd.Udpfs.Writes.{
  acknowledged, after_complete, after_chunk, give_chunk, first_chunk, after_start, write_start,
  handle_write_req, write_data, handle_write_data, bwrite_start, handle_bwrite_req,
}
use udpfsd.Udpfs.Dispatch.{dispatch, handle_payload}
use udpfsd.Udpfs.Laws.{InTable, IsFileSystem, IsConnection, SafeResult, answered_lem, call_lem}
use udpfsd.Udpfs.Safety.Sending.{
  send_write_done-Safe, acknowledge-IsConnection, set_write_handle-IsConnection,
}
use udpfsd.Udpfs.Safety.Answers.{if-SafeResult, case-SafeResult}
use udpfsd.Udpfs.Safety.Handling.{
  handle_open-Safe, handle_close-Safe, handle_read-Safe, handle_lseek-Safe, handle_dread-Safe,
  handle_getstat-Safe, handle_mkdir-Safe, handle_remove-Safe, handle_rmdir-Safe, handle_bread-Safe,
}

-- The requests that name a handle in their bytes 4 to 7
abbrev pub names_handle : ℕ → Bool
names_handle t =
    ((t == MsgType.close_req) || (t == MsgType.read_req))
    || ((t == MsgType.write_req) || (t == MsgType.lseek_req))
    || ((t == MsgType.dread_req) || ((t == MsgType.bread_req) || (t == MsgType.bwrite_req)))

-- A request of this type that names a handle names one of the table, a DREAD not that of the block device;
-- and what a READ or BREAD asks for fits into the buffer.
pub record IsFair (t : ℕ) (payload : List ℕ) : Type 0 where
  pub handle : names_handle t ≡ true → InTable (get_u32 payload 4)
  pub some_dir : t ≡ MsgType.dread_req → get_u32 payload 4 ≢ 0
  pub size : t ≡ MsgType.read_req → get_u32 payload 8 ≤ buffer_size
  pub count : t ≡ MsgType.bread_req → get_u16 payload 2 * 512 ≤ buffer_size

module _ {F : Type 0} {P : F → Type 0} where
  acknowledged-Safe :
      (status : ℕ) (c : Connection F) → IsConnection P c → SafeResult P (acknowledged status c)
  acknowledged-Safe status c i = Returns-ok _ (acknowledge-IsConnection true c i)

  after_complete-Safe :
      (status : ℕ) (a : Result ℕ) (c : Connection F)
      → IsConnection P c
      → SafeResult P (after_complete status a c)
  unfolding after_complete
  after_complete-Safe status (failed e) c i =
      answered_lem (err_code e) (send_write_done-Safe (err_code e) c i)
  after_complete-Safe status (done n) c i = answered_lem status (send_write_done-Safe n c i)

module _ {F : Type 0} {P : F → Type 0} {fs : FileSystem F} (laws : IsFileSystem P fs) where
  after_chunk-Safe :
      (h status : ℕ) (a : Result Bool) (c : Connection F)
      → InTable h
      → IsConnection P c
      → SafeResult P (after_chunk fs h status a c)
  unfolding after_chunk
  after_chunk-Safe h status (failed e) c n i =
      answered_lem (err_code e) (send_write_done-Safe (err_code e) c i)
  after_chunk-Safe h status (done true) c n i =
      call_lem (fs.complete_write h) (after_complete status) c i
        (laws.complete_write h c.files n i.of_files) (after_complete-Safe status)
  after_chunk-Safe h status (done false) c n i = acknowledged-Safe status c i

  give_chunk-Safe :
      (h status : ℕ) (k : Chunk) (c : Connection F)
      → InTable h
      → IsConnection P c
      → SafeResult P (give_chunk fs h status k c)
  unfolding give_chunk
  give_chunk-Safe h status k c n i =
      call_lem (fs.write_chunk h k.number k.size k.total k.bytes) (after_chunk fs h status) c i
        (laws.write_chunk h k.number k.size k.total k.bytes c.files n i.of_files)
        (λ a d j. after_chunk-Safe h status a d n j)

  first_chunk-Safe :
      (h status : ℕ) (rest : List ℕ) (c : Connection F)
      → InTable h
      → IsConnection P c
      → SafeResult P (first_chunk fs h status rest c)
  unfolding first_chunk
  first_chunk-Safe h status rest c n i =
      if-SafeResult _ (acknowledged-Safe 0 c i) (
        if-SafeResult _ (acknowledged-Safe 0 c i)
          (give_chunk-Safe h status (chunk_from rest) c n i))

  after_start-Safe :
      (h status : ℕ) (rest : List ℕ) (a : Option Error) (c : Connection F)
      → InTable h
      → IsConnection P c
      → SafeResult P (after_start fs h status rest a c)
  unfolding after_start
  after_start-Safe h status rest (some e) c n i =
      answered_lem (err_code e) (send_write_done-Safe (err_code e) c i)
  after_start-Safe h status rest none c n i =
      first_chunk-Safe h status rest _ n (set_write_handle-IsConnection h c n i)

  write_start-Safe :
      (h status : ℕ) (rest : List ℕ) (c : Connection F)
      → InTable h
      → IsConnection P c
      → SafeResult P (write_start fs h status rest c)
  unfolding write_start
  write_start-Safe h status rest c n i =
      call_lem (fs.write_start h) (after_start fs h status rest) c i
        (laws.write_start h c.files n i.of_files) (λ a d j. after_start-Safe h status rest a d n j)

  handle_write_req-Safe :
      (payload : List ℕ) (c : Connection F)
      → InTable (get_u32 payload 4)
      → IsConnection P c
      → SafeResult P (handle_write_req fs payload c)
  unfolding handle_write_req
  handle_write_req-Safe payload c n i =
      if-SafeResult _ (acknowledged-Safe 0 c i) (write_start-Safe _ _ _ c n i)

  write_data-Safe :
      (status : ℕ) (k : Chunk) (c : Connection F)
      → IsConnection P c
      → SafeResult P (write_data fs status k c)
  unfolding write_data
  write_data-Safe status k c i = elim (Bool-cases (c.active_write_handle == no_handle)) [
    | inl off ↦ rw off (acknowledged-Safe ebadf c i)
    | inr on ↦
        let active : c.active_write_handle ≢ no_handle = ground arith in
        rw on (give_chunk-Safe _ status k c (i.of_write active) i)
  ]

  handle_write_data-Safe :
      (payload : List ℕ) (c : Connection F)
      → IsConnection P c
      → SafeResult P (handle_write_data fs payload c)
  unfolding handle_write_data
  handle_write_data-Safe payload c i =
      if-SafeResult _ (acknowledged-Safe 0 c i) (write_data-Safe _ _ c i)

  bwrite_start-Safe :
      (h sector count status : ℕ) (rest : List ℕ) (c : Connection F)
      → InTable h
      → IsConnection P c
      → SafeResult P (bwrite_start fs h sector count status rest c)
  unfolding bwrite_start
  bwrite_start-Safe h sector count status rest c n i =
      call_lem (fs.bwrite_start h sector count) (after_start fs h status rest) c i
        (laws.bwrite_start h sector count c.files n i.of_files)
        (λ a d j. after_start-Safe h status rest a d n j)

  handle_bwrite_req-Safe :
      (payload : List ℕ) (c : Connection F)
      → InTable (get_u32 payload 4)
      → IsConnection P c
      → SafeResult P (handle_bwrite_req fs payload c)
  unfolding handle_bwrite_req
  handle_bwrite_req-Safe payload c n i =
      if-SafeResult _ (acknowledged-Safe 0 c i) (bwrite_start-Safe _ _ _ _ _ c n i)

  dispatch-Safe :
      (t : ℕ) (payload : List ℕ) (c : Connection F)
      → IsFair t payload
      → IsConnection P c
      → SafeResult P (dispatch fs t payload c)
  unfolding dispatch
  dispatch-Safe t p c f i =
      let named : (m : ℕ) → (t == m) ≡ true → names_handle m ≡ true → InTable (get_u32 p 4) =
        λ m e n. f.handle (ap names_handle ((==_iff t _).0 e) ∙ n) in
      if-SafeResult _ (handle_open-Safe laws p c i) (
        case-SafeResult _ (λ e. handle_close-Safe laws p c (named _ e refl) i)
          (case-SafeResult _
            (λ e. handle_read-Safe laws p c (named _ e refl) (f.size ((==_iff t _).0 e)) i)
            (case-SafeResult _ (λ e. handle_write_req-Safe p c (named _ e refl) i)
              (if-SafeResult _ (handle_write_data-Safe p c i) (
                case-SafeResult _ (λ e. handle_lseek-Safe laws p c (named _ e refl) i)
                  (case-SafeResult _
                    (λ e.
                      handle_dread-Safe laws p c (named _ e refl) (f.some_dir ((==_iff t _).0 e)) i)
                    (if-SafeResult _ (handle_getstat-Safe laws p c i) (
                      if-SafeResult _ (handle_mkdir-Safe laws p c i) (
                        if-SafeResult _ (handle_remove-Safe laws p c i) (
                          if-SafeResult _ (handle_rmdir-Safe laws p c i) (
                            case-SafeResult _
                              (λ e.
                                handle_bread-Safe laws p c (named _ e refl)
                                  (f.count ((==_iff t _).0 e)) i)
                              (case-SafeResult _
                                (λ e. handle_bwrite_req-Safe p c (named _ e refl) i)
                                (acknowledged-Safe 0 c i)))))))))))))

  -- Over a file system whose operations return for handles of the table and for what the buffer has
  -- room for: a request that is fair in this sense, whatever else its bytes are, is handled without a
  -- panic, and the connection keeps its invariant.
  pub handle_payload-IsConnection :
      (payload : List ℕ) (c : Connection F)
      → IsFair (byte_at payload 0) payload
      → IsConnection P c
      → Returns (λ r. IsConnection P r.1) (handle_payload fs payload c)
  unfolding handle_payload
  handle_payload-IsConnection [] c f i = Returns-ok _ i
  handle_payload-IsConnection (t ∷ rest) c f i = dispatch-Safe t (t ∷ rest) c f i
