-- ===== src/Udpfs/Laws.antt =====
-- udpfs/fs.go: what the connection relies on in a file system, and the calls that keep it.
use udpfsd.Common.{
  ℕ, ◌*◌, ◌^◌, ◌≤◌, ◌<◌, ◌≡◌, ◌≢◌, [], ◌∷◌, none, Bool, Option, some, List, Outcome, length,
  Returns, Returns-ok, Returns-bind, Returns-imp, ◌>>=◌,
}
use udpfsd.Udprdma.Session.{Session}
use udpfsd.Udprdma.Invariant.{IsSession}
use udpfsd.Udpfs.Interface.{FileSystem, Result, done, Opened}
use udpfsd.Udpfs.Replies.{StatInfo}
use udpfsd.Udpfs.Connection.{Handles, no_handle, Connection, call, in_session}
use udpfsd.Udpfs.Handlers.{answered}

-- A name that fits into one packet, with the 48 bytes before it
abbrev pub IsShort : Result (Option (List ℕ × StatInfo)) → Type 0
IsShort (done (some (name, st))) = length name ≤ 1024
IsShort _ = Unit

-- A handle that a table of 64 can have, or that of the block device
abbrev pub InTable : ℕ → Type 0
InTable h = h ≤ 64

-- A handle that is given is one of the table.
abbrev pub GivesInTable : Opened → Type 0
GivesInTable o = o.error ≡ none → o.handle < 2 ^ 31 → InTable o.handle

-- From files with `P`, every operation returns that is given a handle of the table, and room in the
-- buffer for what is read, in sectors of at most 512 bytes; and it leaves files with `P`.
pub record IsFileSystem {F : Type 0} (P : F → Type 0) (fs : FileSystem F) : Type 0 where
  pub close_handle : (h : ℕ) (s : F) → InTable h → P s → Returns (λ r. P r.1) (fs.close_handle h s)
  pub write_start : (h : ℕ) (s : F) → InTable h → P s → Returns (λ r. P r.1) (fs.write_start h s)
  pub mkdir : (path : List ℕ) (s : F) → P s → Returns (λ r. P r.1) (fs.mkdir path s)
  pub remove : (path : List ℕ) (s : F) → P s → Returns (λ r. P r.1) (fs.remove path s)
  pub rmdir : (path : List ℕ) (s : F) → P s → Returns (λ r. P r.1) (fs.rmdir path s)
  pub complete_write :
      (h : ℕ) (s : F) → InTable h → P s → Returns (λ r. P r.1) (fs.complete_write h s)
  pub lseek :
      (h offset whence : ℕ) (s : F)
      → InTable h
      → P s
      → Returns (λ r. P r.1) (fs.lseek h offset whence s)
  pub getstat : (path : List ℕ) (s : F) → P s → Returns (λ r. P r.1) (fs.getstat path s)
  pub open_path :
      (path : List ℕ) (flag : ℕ) (is_dir : Bool) (s : F)
      → P s
      → Returns (λ r. GivesInTable r.0 × P r.1) (fs.open_path path flag is_dir s)
  pub read_handle :
      (h size cap : ℕ) (s : F)
      → InTable h
      → size ≤ cap
      → P s
      → Returns (λ r. P r.1) (fs.read_handle h size cap s)
  pub write_chunk :
      (h number size total : ℕ) (bytes : List ℕ) (s : F)
      → InTable h
      → P s
      → Returns (λ r. P r.1) (fs.write_chunk h number size total bytes s)
  pub bread :
      (h sector count cap : ℕ) (s : F)
      → InTable h
      → count * 512 ≤ cap
      → P s
      → Returns (λ r. P r.1) (fs.bread h sector count cap s)
  pub bwrite_start :
      (h sector count : ℕ) (s : F)
      → InTable h
      → P s
      → Returns (λ r. P r.1) (fs.bwrite_start h sector count s)
  pub dread :
      (h : ℕ) (s : F) → InTable h → h ≢ 0 → P s → Returns (λ r. IsShort r.0 × P r.1) (fs.dread h s)

abbrev pub AllInTable : Handles → Type 0
AllInTable [] = Unit
AllInTable ((h, e) ∷ rest) = InTable h × AllInTable rest

pub record IsConnection {F : Type 0} (P : F → Type 0) (c : Connection F) : Type 0 where
  pub of_session : IsSession c.session
  pub of_files : P c.files
  pub of_handles : AllInTable c.used_handles
  pub of_write : c.active_write_handle ≢ no_handle → InTable c.active_write_handle

-- The call returns, without a panic, in such a connection.
abbrev pub Safe : {F : Type 0} → (F → Type 0) → Outcome (Connection F) → Type 0
Safe P o = Returns (IsConnection P) o

abbrev pub SafeResult : {F : Type 0} → (F → Type 0) → Outcome (ℕ × Connection F) → Type 0
SafeResult P o = Returns (λ r. IsConnection P r.1) o

module _ {F : Type 0} {P : F → Type 0} where
  pub in_session_lem :
      (f : Session → Outcome Session) (c : Connection F)
      → IsConnection P c
      → Returns IsSession (f c.session)
      → Safe P (in_session f c)
  in_session_lem f c i r = Returns-bind _ _ r (λ s j. Returns-ok _ (record {
    of_session = j;
    of_files = i.of_files;
    of_handles = i.of_handles;
    of_write = i.of_write;
  }))

  pub answered_lem :
      (status : ℕ) {o : Outcome (Connection F)} → Safe P o → SafeResult P (answered status o)
  answered_lem status r = Returns-bind _ _ r (λ c i. Returns-ok _ i)

  call-Returns :
      {A : Type 0} (Q : A → Type 0) (f : F → Outcome (A × F)) (c : Connection F)
      → IsConnection P c
      → Returns (λ r. Q r.0 × P r.1) (f c.files)
      → Returns (λ r. Q r.0 × IsConnection P r.1) (call f c)
  call-Returns Q f c i r = Returns-bind _ _ r (λ t j. Returns-ok _ (
    j.0,
    record {
      of_session = i.of_session;
      of_files = j.1;
      of_handles = i.of_handles;
      of_write = i.of_write;
    },
  ))

  -- A call whose result has `Q`, and what comes after it
  pub call_then :
      {A : Type 0} (Q : A → Type 0) (f : F → Outcome (A × F))
      (k : A → Connection F → Outcome (ℕ × Connection F)) (c : Connection F)
      → IsConnection P c
      → Returns (λ r. Q r.0 × P r.1) (f c.files)
      → ((a : A) (d : Connection F) → Q a → IsConnection P d → SafeResult P (k a d))
      → SafeResult P (call f c >>= λ r. k r.0 r.1)
  call_then {A} Q f k c i r next =
      Returns-bind {P = λ (t : A × Connection F). Q t.0 × IsConnection P t.1} _ _
        (call-Returns Q f c i r) (λ t j. next t.0 t.1 j.0 j.1)

  -- A call of which only that it returns is known
  pub call_lem :
      {A : Type 0} (f : F → Outcome (A × F)) (k : A → Connection F → Outcome (ℕ × Connection F))
      (c : Connection F)
      → IsConnection P c
      → Returns (λ r. P r.1) (f c.files)
      → ((a : A) (d : Connection F) → IsConnection P d → SafeResult P (k a d))
      → SafeResult P (call f c >>= λ r. k r.0 r.1)
  call_lem {A} f k c i r next =
      call_then (λ _. Unit {0}) f k c i (Returns-imp (λ t j. (tt, j)) r) (λ a d u j. next a d j)
