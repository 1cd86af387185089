-- ===== src/Udpfs/Safety/Answers.antt =====
-- udpfs/handlers.go: what a handler answers after its call of the file system.
use udpfsd.Common.{
  ℕ, ◌^◌, ◌≡◌, Bool-cases, refl, arith, Bool, true, false, Option, none, some, List, [],
  if◌then◌else◌, leb, Outcome, Option-cases, inl, inr,
}
use udpfsd.Udpfs.Codes.{Error, err_code}
use udpfsd.Udpfs.Replies.{StatInfo, no_stat}
use udpfsd.Udpfs.Interface.{Result, done, failed, Opened}
use udpfsd.Udpfs.Connection.{Connection}
use udpfsd.Udpfs.Handlers.{
  after_open, after_close, after_read, after_lseek, after_dread, after_getstat, after_change,
  after_bread, no_position,
}
use udpfsd.Udpfs.Laws.{GivesInTable, IsConnection, SafeResult, IsShort, answered_lem}
use udpfsd.Udpfs.Safety.Sending.{
  send_open_reply-Safe, send_lseek_reply-Safe, send_getstat_reply-Safe, send_close_reply-Safe,
  send_result_reply_only-Safe, send_dread_reply-Safe, send_read_result-Safe,
  add_handle-IsConnection, remove_handle-IsConnection,
}

module _ {F : Type 0} {P : F → Type 0} where
  pub if-SafeResult :
      (b : Bool) {o p : Outcome (ℕ × Connection F)}
      → SafeResult P o
      → SafeResult P p
      → SafeResult P (if b then o else p)
  if-SafeResult true r s = r
  if-SafeResult false r s = s

  -- Either way out of a test, of which the first knows that it holds
  pub case-SafeResult :
      (b : Bool) {o p : Outcome (ℕ × Connection F)}
      → (b ≡ true → SafeResult P o)
      → SafeResult P p
      → SafeResult P (if b then o else p)
  case-SafeResult true r s = r refl
  case-SafeResult false r s = s

  pub after_close-Safe :
      (h : ℕ) (a : Option Error) (c : Connection F)
      → IsConnection P c
      → SafeResult P (after_close h a c)
  unfolding after_close
  after_close-Safe h (some e) c i =
      answered_lem (err_code e) (send_close_reply-Safe (err_code e) c i)
  after_close-Safe h none c i =
      answered_lem 0 (send_close_reply-Safe 0 _ (remove_handle-IsConnection h c i))

  pub after_read-Safe :
      (a : Result (ℕ × List ℕ)) (c : Connection F)
      → IsConnection P c
      → SafeResult P (after_read a c)
  unfolding after_read
  after_read-Safe (failed e) c i =
      answered_lem (err_code e) (send_read_result-Safe (err_code e) [] c i)
  after_read-Safe (done (n, bytes)) c i = answered_lem n (send_read_result-Safe n bytes c i)

  pub after_lseek-Safe :
      (a : Result ℕ) (c : Connection F) → IsConnection P c → SafeResult P (after_lseek a c)
  unfolding after_lseek
  after_lseek-Safe (failed e) c i = answered_lem _ (send_lseek_reply-Safe no_position c i)
  after_lseek-Safe (done p) c i = answered_lem 0 (send_lseek_reply-Safe p c i)

  pub after_getstat-Safe :
      (a : Result StatInfo) (c : Connection F) → IsConnection P c → SafeResult P (after_getstat a c)
  unfolding after_getstat
  after_getstat-Safe (failed e) c i =
      answered_lem (err_code e) (send_getstat_reply-Safe (err_code e) no_stat c i)
  after_getstat-Safe (done st) c i = answered_lem 0 (send_getstat_reply-Safe 0 st c i)

  pub after_change-Safe :
      (a : Option Error) (c : Connection F) → IsConnection P c → SafeResult P (after_change a c)
  unfolding after_change
  after_change-Safe (some e) c i =
      answered_lem (err_code e) (send_result_reply_only-Safe (err_code e) c i)
  after_change-Safe none c i = answered_lem 0 (send_result_reply_only-Safe 0 c i)

  pub after_bread-Safe :
      (a : Result (List ℕ)) (c : Connection F) → IsConnection P c → SafeResult P (after_bread a c)
  unfolding after_bread
  after_bread-Safe (failed e) c i =
      answered_lem (err_code e) (send_read_result-Safe (err_code e) [] c i)
  after_bread-Safe (done bytes) c i = answered_lem _ (send_read_result-Safe _ bytes c i)

  pub after_dread-Safe :
      (a : Result (Option (List ℕ × StatInfo))) (c : Connection F)
      → IsShort a
      → IsConnection P c
      → SafeResult P (after_dread a c)
  unfolding after_dread
  after_dread-Safe (failed e) c short i =
      answered_lem (err_code e) (send_dread_reply-Safe (err_code e) [] no_stat c (omega arith) i)
  after_dread-Safe (done none) c short i =
      answered_lem 0 (send_dread_reply-Safe 0 [] no_stat c (omega arith) i)
  after_dread-Safe (done (some (name, st))) c short i =
      answered_lem 0 (send_dread_reply-Safe 1 name st c short i)

  pub after_open-Safe :
      (path : List ℕ) (flag : ℕ) (is_dir : Bool) (o : Opened) (c : Connection F)
      → GivesInTable o
      → IsConnection P c
      → SafeResult P (after_open path flag is_dir o c)
  unfolding after_open
  after_open-Safe path flag is_dir o c k i = elim (Option-cases o.error) [
    | inl e ↦ rw e (elim (Bool-cases (leb (2 ^ 31) o.handle)) [
      | inl bad ↦ rw bad (answered_lem o.handle (send_open_reply-Safe o.handle o.stat c i))
      | inr good ↦ rw good (
          answered_lem 0 (
            send_open_reply-Safe o.handle o.stat _
              (add_handle-IsConnection o.handle path flag is_dir c (k e (ground arith)) i)))
    ])
    | inr (x, e) ↦ rw e (answered_lem _ (send_open_reply-Safe (err_code x) o.stat c i))
  ]
