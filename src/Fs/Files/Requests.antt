-- ===== src/Fs/Files/Requests.antt =====
-- udpfs/handlers.go over internal/fs/fileops.go: what the requests of a write in chunks do, one by one.
use udpfsd.Common.{
  ℕ, ◌+◌, ◌^◌, ◌<◌, ◌==◌, ◌≡◌, refl, sym, ap, ◌∙◌, arith, true, false, List, [], ◌++◌, leb, length,
  ok, Returns, Returns-ok,
}
use udpfsd.Udprdma.Session.{Session}
use udpfsd.Udprdma.Invariant.{IsSession, send_data-IsSession}
use udpfsd.Udpfs.Replies.{pack_write_done}
use udpfsd.Udpfs.Replies.Sizes.{length-pack_write_done}
use udpfsd.Udprdma.Invariant.Receiving.{send_ack-IsSession}
use udpfsd.Udpfs.Codes.{err_code}
use udpfsd.Udpfs.Interface.{Result, done, failed, FileSystem}
use udpfsd.Udpfs.Connection.{
  Connection, no_handle, acknowledge, set_write_handle, clear_write_handle, send_write_done,
}
use udpfsd.Udpfs.Writes.{
  write_start, after_start, first_chunk, write_data, give_chunk, after_chunk, after_complete,
}
use udpfsd.Udpfs.Dispatch.{handle_payload}
use udpfsd.Udpfs.Client.{Request, write_file, send_chunk, request_bytes, serve}
use udpfsd.Udpfs.Client.Served.{handle_payload-serve}
use udpfsd.Fs.Handles.{FileHandle}
use udpfsd.Fs.Files.{Storage, Files, written, on_files}
use udpfsd.Fs.Files.Writing.{
  Holds, Writing, write_start-Writing, write_chunk-Writing, complete_write-Writing,
}

-- A connection in the midst of a write to the file at `h`: it has got `bytes` in `n` chunks, and nothing
-- of the world has changed.
pub record Busy {W : Type 0} (h : ℕ) (f : FileHandle) (bytes : List ℕ) (n : ℕ) (w : W)
    (c : Connection (Files W)) : Type 0 where
  pub active : c.active_write_handle ≡ h
  pub writing : Writing h f bytes n c.files
  pub same : c.files.world ≡ w
  pub of_session : IsSession c.session

write_done_sent :
    {F : Type 0} (k : ℕ) (c : Connection F)
    → IsSession c.session
    → (s : Session) × IsSession s
      × (send_write_done k c ≡ ok (record c { session = s; active_write_handle = no_handle }))
unfolding send_write_done clear_write_handle
write_done_sent k c i =
    let s =
      send_data-IsSession (pack_write_done k) c.session i
        (omega (arith, length-pack_write_done k)) in
    (s.value, s.holds, rw s.result refl)

-- What WRITE_DONE carries
unfoldable pub status_of : Result ℕ → ℕ
status_of (failed e) = err_code e
status_of (done n) = n

abbrev pub chunk : ℕ → ℕ → List ℕ → Request
chunk total n bytes =
    send_chunk (record { number = n; size = length bytes; total = total; bytes = bytes })

module _ {W : Type 0} (st : Storage W) where
  -- After the last chunk: the bytes were written to the object, WRITE_DONE was sent with the outcome, and no
  -- write is active.
  pub record Landed (f : FileHandle) (bytes : List ℕ) (w : W) (d : Connection (Files W))
      : Type 0 where
    pub world_is : d.files.world ≡ (st.write_object f.object bytes w).1
    pub idle : d.active_write_handle ≡ no_handle
    pub before : Connection (Files W)
    pub answer :
        send_write_done (status_of (written false (st.write_object f.object bytes w).0)) before
        ≡ ok d
    pub of_session : IsSession d.session

  completed-Landed :
      (f : FileHandle) (bytes : List ℕ) (w : W) (status : ℕ) (a : Result ℕ)
      (c : Connection (Files W))
      → a ≡ written false (st.write_object f.object bytes w).0
      → c.files.world ≡ (st.write_object f.object bytes w).1
      → IsSession c.session
      → Returns (λ r. Landed f bytes w r.1) (after_complete status a c)
  unfolding after_complete status_of
  completed-Landed f bytes w status (failed e) c p q i =
      let s = write_done_sent (err_code e) c i in
      rw s.2 (
        Returns-ok _ (record {
          world_is = q;
          idle = refl;
          before = c;
          answer = rw (sym p) s.2;
          of_session = s.1;
        }))
  completed-Landed f bytes w status (done n) c p q i =
      let s = write_done_sent n c i in
      rw s.2 (
        Returns-ok _ (record {
          world_is = q;
          idle = refl;
          before = c;
          answer = rw (sym p) s.2;
          of_session = s.1;
        }))

module _ {W : Type 0} (st : Storage W) (base : FileSystem (Files W)) where
  pub start-Busy :
      (h : ℕ) (f : FileHandle) (size : ℕ) (c : Connection (Files W))
      → Holds h f c.files.backend
      → f.read_only ≡ false
      → IsSession c.session
      → Returns
          (λ r. Busy h f [] 0 c.files.world r.1)
          (handle_payload (on_files st base) (request_bytes (write_file h size [])) c)
  unfolding serve write_start after_start first_chunk set_write_handle acknowledge on_files
  start-Busy h f size c i e j =
      let r = write_start-Writing h f c.files i e in
      rw (handle_payload-serve (on_files st base) c (write_file h size []) (omega (arith, i.below)))
        (rw r.result (
          rw r.holds.0 (
            Returns-ok _ (record {
              active = refl;
              writing = r.holds.1;
              same = r.holds.2;
              of_session = send_ack-IsSession true _ j;
            }))))

  pub next-Busy :
      (h : ℕ) (f : FileHandle) (bytes : List ℕ) (n total : ℕ) (more : List ℕ) (w : W)
      (c : Connection (Files W))
      → Busy h f bytes n w c
      → n + 1 < total
      → total < 2 ^ 16
      → length more < 2 ^ 16
      → Returns
          (λ r. Busy h f (bytes ++ more) (n + 1) w r.1)
          (handle_payload (on_files st base) (request_bytes (chunk total n more)) c)
  unfolding serve write_data give_chunk after_chunk acknowledge on_files
  next-Busy h f bytes n total more w c i earlier small fits =
      let r =
        write_chunk-Writing h f bytes n c.files (length more) total more i.writing (omega arith) in
      let l : leb total (n + 1) ≡ false = ground arith in
      let a : (c.active_write_handle == no_handle) ≡ false =
        ground (arith, i.active, i.writing.holds.below) in
      rw
        (handle_payload-serve (on_files st base) c (chunk total n more)
          (omega arith, omega arith, small, omega arith))
        (rw (a, i.active)
          (rw r.result (
            rw (r.holds.0, l)
              (Returns-ok _ (record {
                active = refl;
                writing = r.holds.1;
                same = r.holds.2 ∙ i.same;
                of_session = send_ack-IsSession true _ i.of_session;
              })))))

  pub last-Landed :
      (h : ℕ) (f : FileHandle) (bytes : List ℕ) (n total : ℕ) (more : List ℕ) (w : W)
      (c : Connection (Files W))
      → Busy h f bytes n w c
      → n + 1 ≡ total
      → total < 2 ^ 16
      → length more < 2 ^ 16
      → Returns
          (λ r. Landed st f (bytes ++ more) w r.1)
          (handle_payload (on_files st base) (request_bytes (chunk total n more)) c)
  unfolding serve write_data give_chunk after_chunk on_files
  last-Landed h f bytes n total more w c i last small fits =
      let r =
        write_chunk-Writing h f bytes n c.files (length more) total more i.writing (omega arith) in
      let l : leb total (n + 1) ≡ true = ground arith in
      let a : (c.active_write_handle == no_handle) ≡ false =
        ground (arith, i.active, i.writing.holds.below) in
      let q = complete_write-Writing st h f (bytes ++ more) (n + 1) r.value.1 r.holds.1 in
      let e = r.holds.2 ∙ i.same in
      rw
        (handle_payload-serve (on_files st base) c (chunk total n more)
          (omega arith, omega arith, small, omega arith))
        (rw (a, i.active)
          (rw r.result (
            rw (r.holds.0, l)
              (rw q.result (
                completed-Landed st f (bytes ++ more) w _ q.value.0 _
                  (q.holds.0
                    ∙ ap (λ v. written false (st.write_object f.object (bytes ++ more) v).0) e)
                  (q.holds.1 ∙ ap (λ v. (st.write_object f.object (bytes ++ more) v).1) e)
                  i.of_session)))))
