-- ===== src/Udpfs/Connection.antt =====
-- udpfs/connection.go. The map `usedHandles` is the list of its entries in one order of iteration, and
-- `files` is the state of the file system that `fs` points to. `activeWriteHandle` is an int32, as its
-- 32 bits. The lock is held over each operation. `packetBuf` and the metrics are left out.
use udpfsd.Common.{
  ℕ, ◌*◌, Bool, true, false, Option, none, some, List, [], ◌∷◌, ◌==◌, ◌&&◌, if◌then◌else◌,
  same_name, Outcome, ok, ◌>>=◌,
}
use udpfsd.Udprdma.Session.{Session, set_reset_callback, close}
use udpfsd.Udprdma.Transmit.{send_ack, send_data, send_raw_data_with_header}
use udpfsd.Udpfs.Codes.{minus}
use udpfsd.Udpfs.Replies.{
  StatInfo, pack_open_reply, pack_close_reply, pack_result_reply, pack_write_done, pack_lseek_reply,
  pack_dread_reply, pack_getstat_reply,
}
use udpfsd.Udpfs.Interface.{FileSystem}

pub record CachedHandle : Type 0 where
  pub path : List ℕ
  pub flag : ℕ
  pub reset : Bool
  pub is_dir : Bool

abbrev pub Handles : Type 0
Handles = List (ℕ × CachedHandle)

pub record Connection (F : Type 0) : Type 0 where
  pub files : F
  pub session : Session
  pub used_handles : Handles
  pub active_write_handle : ℕ

-- `len(c.dataBuffer)`
abbrev pub buffer_size : ℕ
buffer_size = 128 * 1024

-- `activeWriteHandle` where there is none: -1
abbrev pub no_handle : ℕ
no_handle = minus 1

-- `usedHandles[h] = entry`
abbrev pub set_entry : ℕ → CachedHandle → Handles → Handles
set_entry h entry [] = (h, entry) ∷ []
set_entry h entry ((k, e) ∷ rest) =
    if k == h then (h, entry) ∷ rest else (k, e) ∷ set_entry h entry rest

-- `delete(usedHandles, h)`
abbrev pub delete_entry : ℕ → Handles → Handles
delete_entry h [] = []
delete_entry h ((k, e) ∷ rest) = if k == h then rest else (k, e) ∷ delete_entry h rest

abbrev pub matches : List ℕ → ℕ → CachedHandle → Bool
matches path flag e = (e.reset && same_name e.path path) && (e.flag == flag)

-- The loop of `lookupHandle`: the handle, and the entries with its own no longer reset
unfoldable pub find_reset : List ℕ → ℕ → Handles → Option (ℕ × Handles)
find_reset path flag [] = none
find_reset path flag ((k, e) ∷ rest) =
    let found = find_reset path flag rest in
    if matches path flag e
    then some (k, (k, record e { reset = false }) ∷ rest)
    else elim found [ none ↦ none | some r ↦ some (r.0, (k, e) ∷ r.1) ]

module _ {F : Type 0} where
  -- An operation of the session in the connection
  abbrev pub in_session : (Session → Outcome Session) → Connection F → Outcome (Connection F)
  in_session f c = f c.session >>= λ s. ok (record c { session = s })

  -- A call of the file system
  abbrev pub call : {A : Type 0} → (F → Outcome (A × F)) → Connection F → Outcome (A × Connection F)
  call f c = f c.files >>= λ r. ok (r.0, record c { files = r.1 })

  unfoldable pub new_connection : Session → F → Connection F
  new_connection s files = record {
    files = files;
    session = set_reset_callback s;
    used_handles = [];
    active_write_handle = no_handle;
  }

  unfoldable pub clear_write_handle : Connection F → Connection F
  clear_write_handle c = record c { active_write_handle = no_handle }

  unfoldable pub set_write_handle : ℕ → Connection F → Connection F
  set_write_handle h c = record c { active_write_handle = h }

  -- SendACK
  unfoldable pub acknowledge : Bool → Connection F → Connection F
  acknowledge ack c = record c { session = send_ack ack c.session }

  unfoldable pub send_open_reply : ℕ → StatInfo → Connection F → Outcome (Connection F)
  send_open_reply h st = in_session (send_data (pack_open_reply h st))

  -- A nil `data` is sent as an empty one.
  unfoldable pub send_read_result : ℕ → List ℕ → Connection F → Outcome (Connection F)
  send_read_result result bytes =
      in_session (send_raw_data_with_header (pack_result_reply result) bytes)

  unfoldable pub send_write_done : ℕ → Connection F → Outcome (Connection F)
  send_write_done result c = in_session (send_data (pack_write_done result)) (clear_write_handle c)

  unfoldable pub send_lseek_reply : ℕ → Connection F → Outcome (Connection F)
  send_lseek_reply position = in_session (send_data (pack_lseek_reply position))

  unfoldable pub send_dread_reply : ℕ → List ℕ → StatInfo → Connection F → Outcome (Connection F)
  send_dread_reply result name st = in_session (send_data (pack_dread_reply result name st))

  unfoldable pub send_getstat_reply : ℕ → StatInfo → Connection F → Outcome (Connection F)
  send_getstat_reply result st = in_session (send_data (pack_getstat_reply result st))

  unfoldable pub send_close_reply : ℕ → Connection F → Outcome (Connection F)
  send_close_reply result = in_session (send_data (pack_close_reply result))

  unfoldable pub send_result_reply_only : ℕ → Connection F → Outcome (Connection F)
  send_result_reply_only result = in_session (send_data (pack_result_reply result))

  unfoldable pub reopened : Option (ℕ × Handles) → Connection F → Option (ℕ × Connection F)
  reopened none c = none
  reopened (some r) c = some (r.0, record c { used_handles = r.1 })

  unfoldable pub lookup_handle : List ℕ → ℕ → Connection F → Option (ℕ × Connection F)
  lookup_handle path flag c = reopened (find_reset path flag c.used_handles) c

  unfoldable pub add_handle : ℕ → List ℕ → ℕ → Bool → Connection F → Connection F
  add_handle h path flag is_dir c = record c {
    used_handles =
        set_entry h (record { path = path; flag = flag; reset = false; is_dir = is_dir })
          c.used_handles;
  }

  unfoldable pub remove_handle : ℕ → Connection F → Connection F
  remove_handle h c = record c {
    used_handles = delete_entry h c.used_handles;
    active_write_handle = if c.active_write_handle == h then no_handle else c.active_write_handle;
  }

  -- The loop of `ResetPeer`: the entries, all reset, and the files
  unfoldable pub reset_loop : FileSystem F → Handles → F → Outcome (Handles × F)
  reset_loop fs [] files = ok ([], files)
  reset_loop fs ((k, e) ∷ rest) files = fs.lseek k 0 0 files >>= λ r.
      reset_loop fs rest r.1 >>= λ t. ok ((k, record e { reset = true }) ∷ t.0, t.1)

  unfoldable pub reset_peer : FileSystem F → Connection F → Outcome (Connection F)
  reset_peer fs c = reset_loop fs c.used_handles c.files >>= λ r.
      ok (record c { used_handles = r.0; files = r.1 })

  -- The loop of `Close`
  unfoldable pub close_loop : FileSystem F → Handles → F → Outcome F
  close_loop fs [] files = ok files
  close_loop fs ((k, e) ∷ rest) files = fs.close_handle k files >>= λ r. close_loop fs rest r.1

  unfoldable pub close_connection : FileSystem F → Connection F → Outcome (Connection F)
  close_connection fs c = close_loop fs c.used_handles c.files >>= λ files.
      ok (record c { files = files; used_handles = []; session = close c.session })
