-- ===== src/Server/Safety.antt =====
-- internal/udpfsd/server.go and data.go: which datagrams the server stands.
use udpfsd.Common.{
  ℕ, ◌≤◌, Bool, true, false, Option, none, some, List, [], ◌∷◌, refl, ltb, length, Returns,
  Returns-ok, Returns-bind, Bool-cases, inl, inr, ltb→le,
}
use udpfsd.Udprdma.Receive.Delivery.{Reception}
use udpfsd.Udprdma.Receive.Cases.{process_data_packet-Reception}
use udpfsd.Udprdma.Session.{new_session}
use udpfsd.Udprdma.Receive.{Received, invalid, nothing, payload}
use udpfsd.Udprdma.Invariant.{new_session-IsSession}
use udpfsd.Udprdma.Invariant.Life.{
  close-IsSession, ack_timer_func-IsSession, set_reset_callback-IsSession,
}
use udpfsd.Udpfs.Interface.{FileSystem}
use udpfsd.Udpfs.Connection.{
  Connection, Handles, new_connection, reset_loop, reset_peer, close_loop, close_connection,
}
use udpfsd.Udpfs.Laws.{AllInTable, IsFileSystem, IsConnection, Safe}
use udpfsd.Udpfs.Safety.Writing.{handle_payload-IsConnection}
use udpfsd.Server.{
  Peer, Peers, Server, new_server, connection_for, call_back, deliver, receive, handle_data,
  data_handler, clean_peer, keep, cleanup_loop, cleanup, fire, Happening, arrives, ticks, times_out,
  step, run,
}
use udpfsd.Server.Fairness.{
  IsPeer, AllSessions, IsFairPacket, AllFair, IsFairReceived, fair_received, IsServer, KnownSession,
  find_peer-IsSession, set_peer-AllSessions, as_peer, with_files,
}

module _ {F : Type 0} {P : F → Type 0} {fs : FileSystem F} (laws : IsFileSystem P fs) where
  reset_loop-Returns :
      (hs : Handles) (s : F)
      → AllInTable hs
      → P s
      → Returns (λ r. AllInTable r.0 × P r.1) (reset_loop fs hs s)
  unfolding reset_loop
  reset_loop-Returns [] s a i = Returns-ok _ (tt, i)
  reset_loop-Returns ((k, e) ∷ rest) s a i = Returns-bind _ _ (laws.lseek k 0 0 s a.0 i) (λ r j.
      Returns-bind _ _ (reset_loop-Returns rest r.1 a.1 j) (λ t l. Returns-ok _ ((a.0, l.0), l.1)))

  reset_peer-Safe : (c : Connection F) → IsConnection P c → Safe P (reset_peer fs c)
  unfolding reset_peer
  reset_peer-Safe c i =
      Returns-bind _ _ (reset_loop-Returns c.used_handles c.files i.of_handles i.of_files) (λ r j.
        Returns-ok _ (record {
          of_session = i.of_session;
          of_files = j.1;
          of_handles = j.0;
          of_write = i.of_write;
        }))

  close_loop-Returns : (hs : Handles) (s : F) → AllInTable hs → P s → Returns P (close_loop fs hs s)
  unfolding close_loop
  close_loop-Returns [] s a i = Returns-ok _ i
  close_loop-Returns ((k, e) ∷ rest) s a i =
      Returns-bind _ _ (laws.close_handle k s a.0 i) (λ r j. close_loop-Returns rest r.1 a.1 j)

  pub close_connection-Safe : (c : Connection F) → IsConnection P c → Safe P (close_connection fs c)
  unfolding close_connection
  close_connection-Safe c i =
      Returns-bind _ _ (close_loop-Returns c.used_handles c.files i.of_handles i.of_files) (λ r j.
        Returns-ok _ (record {
          of_session = close-IsSession c.session i.of_session;
          of_files = j;
          of_handles = tt;
          of_write = i.of_write;
        }))

  call_back-Safe : (b : Bool) (c : Connection F) → IsConnection P c → Safe P (call_back fs b c)
  unfolding call_back
  call_back-Safe true c i = reset_peer-Safe c i
  call_back-Safe false c i = Returns-ok _ i

  deliver-Safe :
      (r : Received) (c : Connection F)
      → IsFairReceived r
      → IsConnection P c
      → Safe P (deliver fs r c)
  unfolding deliver
  deliver-Safe (payload bytes) c f i =
      Returns-bind _ _ (handle_payload-IsConnection laws bytes c f i) (λ r j. Returns-ok _ j)
  deliver-Safe invalid c f i = Returns-ok _ i
  deliver-Safe nothing c f i = Returns-ok _ i

  pub receive-Safe :
      (packet : List ℕ) (c : Connection F)
      → 6 ≤ length packet
      → IsFairPacket packet
      → IsConnection P c
      → Safe P (receive fs packet c)
  unfolding receive
  receive-Safe packet c long f i =
      Returns-bind {P = Reception packet c.session} _ _
        (process_data_packet-Reception packet c.session i.of_session long)
        (λ r j.
          let k = fair_received f i.of_session j in
          Returns-bind _ _
            (call_back-Safe _ _ (record {
              of_session = k.1;
              of_files = i.of_files;
              of_handles = i.of_handles;
              of_write = i.of_write;
            }))
            (λ d l. deliver-Safe r.0 d k.0 l))

  pub connection_for-IsConnection :
      (p : Option (Peer F)) (files : F)
      → KnownSession p
      → P files
      → IsConnection P (connection_for p files)
  unfolding connection_for new_connection
  connection_for-IsConnection none files k i = record {
    of_session = set_reset_callback-IsSession new_session new_session-IsSession;
    of_files = i;
    of_handles = tt;
    of_write = λ n. absurd (n refl);
  }
  connection_for-IsConnection (some p) files k i = with_files p.connection files k i

  handle_data-IsServer :
      (packet : List ℕ) (a now : ℕ) (s : Server F)
      → 6 ≤ length packet
      → IsFairPacket packet
      → IsServer P s
      → Returns (IsServer P) (handle_data fs packet a now s)
  unfolding handle_data
  handle_data-IsServer packet a now s long f i =
      Returns-bind _ _
        (receive-Safe packet _ long f (
          connection_for-IsConnection _ s.files (find_peer-IsSession a s.peers i.sessions)
            i.of_files))
        (λ c j. Returns-ok _ (record {
          sessions = set_peer-AllSessions a _ s.peers (as_peer c j) i.sessions;
          of_files = j.of_files;
        }))

  data_handler-IsServer :
      (packet : List ℕ) (a now : ℕ) (s : Server F)
      → IsFairPacket packet
      → IsServer P s
      → Returns (IsServer P) (data_handler fs packet a now s)
  unfolding data_handler
  data_handler-IsServer packet a now s f i = elim (Bool-cases (ltb (length packet) 6)) [
    | inl e ↦ rw e (Returns-ok _ i)
    | inr e ↦ rw e (handle_data-IsServer packet a now s (ltb→le (length packet) 6 e) f i)
  ]

  clean_peer-Returns :
      (b : Bool) (a : ℕ) (p : Peer F) (files : F)
      → IsPeer p
      → P files
      → Returns (λ r. AllSessions (keep r.0 []) × P r.1) (clean_peer fs b a p files)
  unfolding clean_peer
  clean_peer-Returns true a p files j i =
      Returns-bind _ _
        (close_connection-Safe (record p.connection { files = files })
          (with_files p.connection files j i))
        (λ c l. Returns-ok _ (tt, l.of_files))
  clean_peer-Returns false a p files j i = Returns-ok _ ((j, tt), i)

  keep-AllSessions :
      (o : Option (ℕ × Peer F)) (rest : Peers F)
      → AllSessions (keep o [])
      → AllSessions rest
      → AllSessions (keep o rest)
  keep-AllSessions none rest j i = i
  keep-AllSessions (some (a, p)) rest j i = (j.0, i)

  cleanup_loop-Returns :
      (timeout now : ℕ) (ps : Peers F) (files : F)
      → AllSessions ps
      → P files
      → Returns (λ r. AllSessions r.0 × P r.1) (cleanup_loop fs timeout now ps files)
  unfolding cleanup_loop
  cleanup_loop-Returns timeout now [] files j i = Returns-ok _ (tt, i)
  cleanup_loop-Returns timeout now ((a, p) ∷ rest) files j i =
      Returns-bind _ _ (clean_peer-Returns _ a p files j.0 i) (λ r l.
        Returns-bind _ _ (cleanup_loop-Returns timeout now rest r.1 j.1 l.1)
          (λ t m. Returns-ok _ (keep-AllSessions r.0 t.0 l.0 m.0, m.1)))

  cleanup-IsServer :
      (now : ℕ) (s : Server F) → IsServer P s → Returns (IsServer P) (cleanup fs now s)
  unfolding cleanup
  cleanup-IsServer now s i =
      Returns-bind _ _
        (cleanup_loop-Returns s.peer_timeout now s.peers s.files i.sessions i.of_files)
        (λ r j. Returns-ok _ (record { sessions = j.0; of_files = j.1 }))

  fire-IsServer :
      (p : Option (Peer F)) (a : ℕ) (s : Server F)
      → KnownSession p
      → IsServer P s
      → IsServer P (fire p a s)
  unfolding fire
  fire-IsServer none a s k i = i
  fire-IsServer (some p) a s k i = record {
    sessions =
        set_peer-AllSessions a _ s.peers
          (record {
            of_session = ack_timer_func-IsSession _ k.of_session;
            of_files = tt;
            of_handles = k.of_handles;
            of_write = k.of_write;
          })
          i.sessions;
    of_files = i.of_files;
  }

  run-from :
      (hs : List Happening) (s : Server F)
      → AllFair hs
      → IsServer P s
      → Returns (IsServer P) (run fs hs s)
  unfolding run step
  run-from [] s f i = Returns-ok _ i
  run-from (arrives a now packet ∷ hs) s f i =
      Returns-bind _ _ (data_handler-IsServer packet a now s f.0 i) (λ t j. run-from hs t f.1 j)
  run-from (ticks now ∷ hs) s f i =
      Returns-bind _ _ (cleanup-IsServer now s i) (λ t j. run-from hs t f j)
  run-from (times_out a ∷ hs) s f i =
      run-from hs _ f (fire-IsServer _ a s (find_peer-IsSession a s.peers i.sessions) i)

  -- Over a file system whose operations return for handles of the table and for what the buffer has room
  -- for: a new server stands any sequence of datagrams from any addresses, whose payloads are fair in this
  -- sense and otherwise any bytes, of rounds of the cleanup and of acknowledgement timers: it does not
  -- panic, every peer's session keeps its invariant, and every handle that a peer has is one of the table.
  pub run-IsServer :
      (hs : List Happening) (files : F) (timeout : ℕ)
      → AllFair hs
      → P files
      → Returns (IsServer P) (run fs hs (new_server files timeout))
  unfolding new_server
  run-IsServer hs files timeout f i = run-from hs _ f (record { sessions = tt; of_files = i })
