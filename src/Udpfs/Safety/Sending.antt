-- ===== src/Udpfs/Safety/Sending.antt =====
-- udpfs/connection.go and udpfs/handlers.go: what the handlers send, and the connections that they leave.
use udpfsd.Common.{
  ℕ, ◌≤◌, ◌≡◌, [], ◌∷◌, ◌==◌, false, none, refl, Bool-cases, Option-cases, inl, inr, subst, arith,
  Bool, Option, none, some, List, length,
}
use mathlib.Core.Option.{some-injective}
use udpfsd.Udprdma.Transmit.{send_data, send_raw_data_with_header}
use udpfsd.Udprdma.Invariant.{send_data-IsSession, send_raw_data_with_header-IsSession}
use udpfsd.Udprdma.Invariant.Receiving.{send_ack-IsSession}
use udpfsd.Udpfs.Replies.{
  StatInfo, pack_open_reply, pack_close_reply, pack_result_reply, pack_write_done, pack_lseek_reply,
  pack_dread_reply, pack_getstat_reply,
}
use udpfsd.Udpfs.Replies.Sizes.{
  length-pack_open_reply, length-pack_close_reply, length-pack_result_reply, length-pack_write_done,
  length-pack_lseek_reply, length-pack_getstat_reply, length-pack_dread_reply,
}
use udpfsd.Udpfs.Connection.{
  CachedHandle, set_entry, delete_entry, find_reset, matches, Connection, reopened, in_session,
  send_open_reply, send_read_result, send_lseek_reply, send_dread_reply, send_getstat_reply,
  send_close_reply, send_result_reply_only, lookup_handle, Handles, add_handle, remove_handle,
  clear_write_handle, set_write_handle, acknowledge, send_write_done,
}
use udpfsd.Udpfs.Laws.{InTable, AllInTable, IsConnection, Safe, in_session_lem}

set_entry-AllInTable :
    (h : ℕ) (e : CachedHandle) (hs : Handles)
    → InTable h
    → AllInTable hs
    → AllInTable (set_entry h e hs)
set_entry-AllInTable h e [] k i = (k, tt)
set_entry-AllInTable h e ((m, x) ∷ rest) k i = elim (Bool-cases (m == h)) [
  | inl same ↦ rw same (k, i.1)
  | inr other ↦ rw other (i.0, set_entry-AllInTable h e rest k i.1)
]

delete_entry-AllInTable : (h : ℕ) (hs : Handles) → AllInTable hs → AllInTable (delete_entry h hs)
delete_entry-AllInTable h [] i = tt
delete_entry-AllInTable h ((m, x) ∷ rest) i = elim (Bool-cases (m == h)) [
  | inl same ↦ rw same i.1
  | inr other ↦ rw other (i.0, delete_entry-AllInTable h rest i.1)
]

find_reset-AllInTable :
    (path : List ℕ) (flag : ℕ) (hs : Handles) (q : ℕ × Handles)
    → AllInTable hs
    → find_reset path flag hs ≡ some q
    → AllInTable q.1
unfolding find_reset
find_reset-AllInTable path flag [] q i e = absurd (cc)
find_reset-AllInTable path flag ((k, x) ∷ rest) q i e = elim (Bool-cases (matches path flag x)) [
  | inl m ↦
      let s : some (k, (k, record x { reset = false }) ∷ rest) ≡ some q = rw (find_reset, m) at e in
      subst (λ (t : ℕ × Handles). AllInTable t.1) (some-injective _ _ s) i
  | inr m ↦ elim (Option-cases (find_reset path flag rest)) [
    | inl f ↦ absurd (let s : none ≡ some q = rw (find_reset, m, f) at e in cc)
    | inr (r, f) ↦
        let s : some (r.0, (k, x) ∷ r.1) ≡ some q = rw (find_reset, m, f) at e in
        subst (λ (t : ℕ × Handles). AllInTable t.1) (some-injective _ _ s)
          (i.0, find_reset-AllInTable path flag rest r i.1 f)
  ]
]

module _ {F : Type 0} {P : F → Type 0} where
  send-Safe :
      (bytes : List ℕ) (c : Connection F)
      → length bytes ≤ 1492
      → IsConnection P c
      → Safe P (in_session (send_data bytes) c)
  send-Safe bytes c short i =
      in_session_lem (send_data bytes) c i (send_data-IsSession bytes _ i.of_session short)

  pub send_open_reply-Safe :
      (h : ℕ) (st : StatInfo) (c : Connection F)
      → IsConnection P c
      → Safe P (send_open_reply h st c)
  unfolding send_open_reply
  send_open_reply-Safe h st c i =
      send-Safe (pack_open_reply h st) c (omega (arith, length-pack_open_reply h st)) i

  pub send_lseek_reply-Safe :
      (p : ℕ) (c : Connection F) → IsConnection P c → Safe P (send_lseek_reply p c)
  unfolding send_lseek_reply
  send_lseek_reply-Safe p c i =
      send-Safe (pack_lseek_reply p) c (omega (arith, length-pack_lseek_reply p)) i

  pub send_getstat_reply-Safe :
      (r : ℕ) (st : StatInfo) (c : Connection F)
      → IsConnection P c
      → Safe P (send_getstat_reply r st c)
  unfolding send_getstat_reply
  send_getstat_reply-Safe r st c i =
      send-Safe (pack_getstat_reply r st) c (omega (arith, length-pack_getstat_reply r st)) i

  pub send_close_reply-Safe :
      (r : ℕ) (c : Connection F) → IsConnection P c → Safe P (send_close_reply r c)
  unfolding send_close_reply
  send_close_reply-Safe r c i =
      send-Safe (pack_close_reply r) c (omega (arith, length-pack_close_reply r)) i

  pub send_result_reply_only-Safe :
      (r : ℕ) (c : Connection F) → IsConnection P c → Safe P (send_result_reply_only r c)
  unfolding send_result_reply_only
  send_result_reply_only-Safe r c i =
      send-Safe (pack_result_reply r) c (omega (arith, length-pack_result_reply r)) i

  pub send_dread_reply-Safe :
      (r : ℕ) (name : List ℕ) (st : StatInfo) (c : Connection F)
      → length name ≤ 1024
      → IsConnection P c
      → Safe P (send_dread_reply r name st c)
  unfolding send_dread_reply
  send_dread_reply-Safe r name st c short i =
      send-Safe (pack_dread_reply r name st) c (omega (arith, length-pack_dread_reply r name st)) i

  pub send_read_result-Safe :
      (r : ℕ) (bytes : List ℕ) (c : Connection F)
      → IsConnection P c
      → Safe P (send_read_result r bytes c)
  unfolding send_read_result
  send_read_result-Safe r bytes c i =
      in_session_lem (send_raw_data_with_header (pack_result_reply r) bytes) c i (
        send_raw_data_with_header-IsSession (pack_result_reply r) bytes _ i.of_session
          (omega (arith, length-pack_result_reply r)))

  pub send_write_done-Safe :
      (r : ℕ) (c : Connection F) → IsConnection P c → Safe P (send_write_done r c)
  unfolding send_write_done clear_write_handle
  send_write_done-Safe r c i =
      send-Safe (pack_write_done r) _ (omega (arith, length-pack_write_done r)) (record {
        of_session = i.of_session;
        of_files = i.of_files;
        of_handles = i.of_handles;
        of_write = λ n. absurd (n refl);
      })

  pub acknowledge-IsConnection :
      (ack : Bool) (c : Connection F) → IsConnection P c → IsConnection P (acknowledge ack c)
  unfolding acknowledge
  acknowledge-IsConnection ack c i = record {
    of_session = send_ack-IsSession ack _ i.of_session;
    of_files = i.of_files;
    of_handles = i.of_handles;
    of_write = i.of_write;
  }

  pub add_handle-IsConnection :
      (h : ℕ) (path : List ℕ) (flag : ℕ) (is_dir : Bool) (c : Connection F)
      → InTable h
      → IsConnection P c
      → IsConnection P (add_handle h path flag is_dir c)
  unfolding add_handle
  add_handle-IsConnection h path flag is_dir c k i = record {
    of_session = i.of_session;
    of_files = i.of_files;
    of_handles = set_entry-AllInTable h _ c.used_handles k i.of_handles;
    of_write = i.of_write;
  }

  pub remove_handle-IsConnection :
      (h : ℕ) (c : Connection F) → IsConnection P c → IsConnection P (remove_handle h c)
  unfolding remove_handle
  remove_handle-IsConnection h c i = record {
    of_session = i.of_session;
    of_files = i.of_files;
    of_handles = delete_entry-AllInTable h c.used_handles i.of_handles;
    of_write = elim (Bool-cases (c.active_write_handle == h)) [
      | inl e ↦ rw e (λ n. absurd (n refl))
      | inr e ↦ rw e i.of_write
    ];
  }

  pub set_write_handle-IsConnection :
      (h : ℕ) (c : Connection F)
      → InTable h
      → IsConnection P c
      → IsConnection P (set_write_handle h c)
  unfolding set_write_handle
  set_write_handle-IsConnection h c k i = record {
    of_session = i.of_session;
    of_files = i.of_files;
    of_handles = i.of_handles;
    of_write = λ n. k;
  }

  reopened-IsConnection :
      (o : Option (ℕ × Handles)) (c : Connection F) (r : ℕ × Connection F)
      → ((q : ℕ × Handles) → o ≡ some q → AllInTable q.1)
      → reopened o c ≡ some r
      → IsConnection P c
      → IsConnection P r.1
  unfolding reopened
  reopened-IsConnection none c r k e i = absurd (cc)
  reopened-IsConnection (some q) c r k e i =
      subst (λ (t : ℕ × Connection F). IsConnection P t.1) (some-injective _ _ e)
        (record {
          of_session = i.of_session;
          of_files = i.of_files;
          of_handles = k q refl;
          of_write = i.of_write;
        })

  pub lookup_handle-IsConnection :
      (path : List ℕ) (flag : ℕ) (c : Connection F) (r : ℕ × Connection F)
      → lookup_handle path flag c ≡ some r
      → IsConnection P c
      → IsConnection P r.1
  unfolding lookup_handle
  lookup_handle-IsConnection path flag c r e i =
      reopened-IsConnection _ c r
        (λ q found. find_reset-AllInTable path flag c.used_handles q i.of_handles found) e i
