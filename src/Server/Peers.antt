-- ===== src/Server/Peers.antt =====
-- internal/udpfsd/server.go: what a round of the cleanup does to the table of peers.
use udpfsd.Common.{
  ℕ, ◌-◌, ◌≡◌, refl, Bool, true, false, [], ◌∷◌, if◌then◌else◌, leb, Returns, Returns-ok,
  Returns-bind,
}
use udpfsd.Udpfs.Interface.{FileSystem}
use udpfsd.Udpfs.Laws.{IsFileSystem}
use udpfsd.Server.Fairness.{IsPeer, AllSessions, IsServer, with_files}
use udpfsd.Server.Safety.{close_connection-Safe}
use udpfsd.Server.{Peer, Peers, Server, clean_peer, keep, cleanup_loop, cleanup}

-- The peers seen less than `timeout` before `now`
abbrev pub recent : {F : Type 0} → ℕ → ℕ → Peers F → Peers F
recent timeout now [] = []
recent timeout now ((a, p) ∷ rest) =
    if leb timeout (now - p.last_seen)
    then recent timeout now rest
    else (a, p) ∷ recent timeout now rest

module _ {F : Type 0} {P : F → Type 0} {fs : FileSystem F} (laws : IsFileSystem P fs) where
  clean_peer_kept :
      (b : Bool) (a : ℕ) (p : Peer F) (files : F)
      → IsPeer p
      → P files
      → Returns
          (λ r. ((rest : Peers F) → keep r.0 rest ≡ (if b then rest else (a, p) ∷ rest)) × P r.1)
          (clean_peer fs b a p files)
  unfolding clean_peer
  clean_peer_kept true a p files k i =
      Returns-bind _ _ (close_connection-Safe laws _ (with_files p.connection files k i))
        (λ c l. Returns-ok _ ((λ rest. refl), l.of_files))
  clean_peer_kept false a p files k i = Returns-ok _ ((λ rest. refl), i)

  cleanup_loop-recent :
      (timeout now : ℕ) (ps : Peers F) (files : F)
      → AllSessions ps
      → P files
      → Returns (λ r. r.0 ≡ recent timeout now ps) (cleanup_loop fs timeout now ps files)
  unfolding cleanup_loop
  cleanup_loop-recent timeout now [] files k i = Returns-ok _ refl
  cleanup_loop-recent timeout now ((a, p) ∷ rest) files k i =
      Returns-bind _ _ (clean_peer_kept _ a p files k.0 i) (λ r l.
        Returns-bind _ _ (cleanup_loop-recent timeout now rest r.1 k.1 l.1)
          (λ t e. Returns-ok _ (rw e (l.0 _))))

  -- Over a file system whose operations return for handles of the table: a round of the cleanup of a
  -- server whose peers have only such handles returns, and keeps just the peers seen less than the
  -- timeout before, in their order.
  pub cleanup-recent :
      (now : ℕ) (s : Server F)
      → IsServer P s
      → Returns (λ t. t.peers ≡ recent s.peer_timeout now s.peers) (cleanup fs now s)
  unfolding cleanup
  cleanup-recent now s i =
      Returns-bind _ _
        (cleanup_loop-recent s.peer_timeout now s.peers s.files i.sessions i.of_files)
        (λ r e. Returns-ok _ e)
