-- ===== src/Udpfs/Reopen.antt =====
-- udpfs/connection.go: a peer that was reset gets the handles of its files again.
use udpfsd.Common.{
  ℕ, suc, ◌+◌, ◌≡◌, refl, ap, arith, true, false, some, List, [], ◌∷◌, if◌then◌else◌,
  same_name_refl, same_name→eq, Returns, Returns-ok, Returns-bind, Bool-cases, inl, inr,
}
use udpfsd.Udpfs.Replies.{no_stat}
use udpfsd.Udpfs.Interface.{FileSystem}
use udpfsd.Udpfs.Laws.{IsFileSystem, AllInTable, IsConnection}
use udpfsd.Udpfs.Connection.{
  CachedHandle, Handles, Connection, matches, find_reset, reopened, lookup_handle, reset_loop,
  reset_peer, send_open_reply,
}
use udpfsd.Udpfs.Handlers.{answered, open_path, reuse_or_open}

-- A handle that the connection has for a path and flags
pub data Has (path : List ℕ) (flag : ℕ) : ℕ → Handles → Type 0 where
  here :
      {h : ℕ} {e : CachedHandle} {rest : Handles}
      → e.path ≡ path
      → e.flag ≡ flag
      → Has path flag h ((h, e) ∷ rest)
  there :
      {h k : ℕ} {e : CachedHandle} {rest : Handles}
      → Has path flag h rest
      → Has path flag h ((k, e) ∷ rest)

-- The handles that may be handed out again
abbrev pub waiting : Handles → ℕ
waiting [] = 0
waiting ((k, e) ∷ rest) = (if e.reset then 1 else 0) + waiting rest

abbrev pub all_reset : Handles → Handles
all_reset [] = []
all_reset ((k, e) ∷ rest) = (k, record e { reset = true }) ∷ all_reset rest

matches-all_reset :
    (path : List ℕ) (flag : ℕ) (e : CachedHandle)
    → e.path ≡ path
    → e.flag ≡ flag
    → matches path flag (record e { reset = true }) ≡ true
matches-all_reset path flag e p f = rw (p, f, same_name_refl path) (ground arith)

matches→same :
    (path : List ℕ) (flag : ℕ) (e : CachedHandle)
    → matches path flag e ≡ true
    → (e.path ≡ path) × (e.flag ≡ flag)
matches→same path flag e m = ground (arith, same_name→eq e.path path)

pub record Found (path : List ℕ) (flag : ℕ) (hs : Handles) : Type 0 where
  pub handle : ℕ
  pub left : Handles
  pub found : find_reset path flag (all_reset hs) ≡ some (handle, left)
  pub had : Has path flag handle hs
  pub fewer : waiting (all_reset hs) ≡ suc (waiting left)

here-Found :
    (path : List ℕ) (flag k : ℕ) (e : CachedHandle) (rest : Handles)
    → e.path ≡ path
    → e.flag ≡ flag
    → Found path flag ((k, e) ∷ rest)
unfolding find_reset
here-Found path flag k e rest p f = record {
  handle = k;
  left = (k, record e { reset = false }) ∷ all_reset rest;
  found = rw (matches-all_reset path flag e p f) refl;
  had = here p f;
  fewer = omega arith;
}

there-Found :
    (path : List ℕ) (flag k : ℕ) (e : CachedHandle) (rest : Handles)
    → matches path flag (record e { reset = true }) ≡ false
    → Found path flag rest
    → Found path flag ((k, e) ∷ rest)
unfolding find_reset
there-Found path flag k e rest m r = record {
  handle = r.handle;
  left = (k, record e { reset = true }) ∷ r.left;
  found = rw (m, r.found) refl;
  had = there r.had;
  fewer = omega (arith, r.fewer);
}

find_reset-Found :
    (path : List ℕ) (flag : ℕ) (hs : Handles) {k : ℕ} → Has path flag k hs → Found path flag hs
find_reset-Found path flag [] q = elim q [ ]
find_reset-Found path flag ((k, e) ∷ rest) (here p f) = here-Found path flag k e rest p f
find_reset-Found path flag ((k, e) ∷ rest) (there q) =
    let r = find_reset-Found path flag rest q in
    elim (Bool-cases (matches path flag (record e { reset = true }))) [
      | inl m ↦
          let s = matches→same path flag (record e { reset = true }) m in
          here-Found path flag k e rest s.0 s.1
      | inr m ↦ there-Found path flag k e rest m r
    ]

reset_loop-all_reset :
    {F : Type 0} {P : F → Type 0} {fs : FileSystem F} (laws : IsFileSystem P fs) (hs : Handles)
    (s : F)
    → AllInTable hs
    → P s
    → Returns (λ r. r.0 ≡ all_reset hs) (reset_loop fs hs s)
unfolding reset_loop
reset_loop-all_reset laws [] s a i = Returns-ok _ refl
reset_loop-all_reset laws ((k, e) ∷ rest) s a i =
    Returns-bind _ _ (laws.lseek k 0 0 s a.0 i) (λ r j.
      Returns-bind _ _ (reset_loop-all_reset laws rest r.1 a.1 j)
        (λ t g. Returns-ok _ (ap (λ q. (k, record e { reset = true }) ∷ q) g)))

-- The connection after a reset, and the OPEN of a file in it
pub record Reopens {F : Type 0} (fs : FileSystem F) (path : List ℕ) (flag : ℕ) (c d : Connection F)
    : Type 0 where
  pub handle : ℕ
  pub left : Handles
  pub had : Has path flag handle c.used_handles
  pub opens :
      open_path fs path flag false d
      ≡ answered 0 (send_open_reply handle no_stat (record d { used_handles = left }))
  pub fewer : waiting d.used_handles ≡ suc (waiting left)

reopens :
    {F : Type 0} (fs : FileSystem F) (path : List ℕ) (flag : ℕ) (c d : Connection F)
    → d.used_handles ≡ all_reset c.used_handles
    → Found path flag c.used_handles
    → Reopens fs path flag c d
unfolding open_path lookup_handle reuse_or_open reopened
reopens fs path flag c d e f = record {
  handle = f.handle;
  left = f.left;
  had = f.had;
  opens = rw e (rw f.found refl);
  fewer = rw e f.fewer;
}

-- Over a file system whose operations return for handles of the table: if a peer that has only such
-- handles, and a file open under this path and with these flags, is reset, then ResetPeer returns. A
-- request to open the same file with the same flags is then answered with a handle that the peer had
-- for it, without a call of the file system, and one handle fewer waits to be handed out again.
pub reset_peer-Reopens :
    {F : Type 0} {P : F → Type 0} {fs : FileSystem F} (laws : IsFileSystem P fs) (path : List ℕ)
    (flag : ℕ) (c : Connection F) (k : ℕ)
    → IsConnection P c
    → Has path flag k c.used_handles
    → Returns (λ d. Reopens fs path flag c d) (reset_peer fs c)
unfolding reset_peer
reset_peer-Reopens {fs = fs} laws path flag c k i h =
    Returns-bind _ _ (reset_loop-all_reset laws c.used_handles c.files i.of_handles i.of_files)
      (λ r e. Returns-ok _ (reopens fs path flag c _ e (find_reset-Found path flag _ h)))
