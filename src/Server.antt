-- ===== src/Server.antt =====
-- internal/udpfsd/server.go, data.go and discovery.go: the table of peers, and what comes in. An address
-- with its port is a number. The one file system of the server is `files`: a connection of the table,
-- whose own is stale, is given it at each use. The lock is held over each access to the table, one
-- goroutine handles all data, and readings of the clock are arguments. The map `cMap` is the list of its
-- entries in one order of iteration.
pub mod Fairness
pub mod Safety
pub mod Peers
mod Tests
use udpfsd.Common.{
  ℕ, suc, ◌-◌, ◌==◌, Bool, true, false, Option, none, some, List, [], ◌∷◌, if◌then◌else◌, leb, ltb,
  length, Outcome, ok, ◌>>=◌,
}
use udpfsd.Udprdma.Session.{Session, Event, reset_callback, datagram, new_session}
use udpfsd.Udprdma.Transmit.{ack_timer_func}
use udpfsd.Udprdma.Protocol.{
  DiscoveryResult, inform, refused, process_discovery_packet, service_udpfs,
}
use udpfsd.Udprdma.Receive.{Received, invalid, nothing, payload, process_data_packet}
use udpfsd.Udpfs.Interface.{FileSystem}
use udpfsd.Udpfs.Connection.{Connection, new_connection, reset_peer, close_connection}
use udpfsd.Udpfs.Dispatch.{handle_payload}

pub record Peer (F : Type 0) : Type 0 where
  pub connection : Connection F
  pub last_seen : ℕ

abbrev pub Peers : Type 0 → Type 0
Peers F = List (ℕ × Peer F)

pub record Server (F : Type 0) : Type 0 where
  pub peers : Peers F
  pub files : F
  pub peer_timeout : ℕ

-- The number of times that the session called its reset callback
abbrev pub resets : List Event → ℕ
resets [] = 0
resets (reset_callback ∷ es) = suc (resets es)
resets (datagram b ∷ es) = resets es

-- One round of `discoveryHandler`: the reply to the datagram, if there is one
unfoldable pub reply_of : DiscoveryResult → Option (List ℕ)
reply_of (inform reply) = some reply
reply_of (refused e) = none

unfoldable pub discovery_handler : List ℕ → Option (List ℕ)
discovery_handler packet =
    if ltb (length packet) 6 then none else reply_of (process_discovery_packet packet service_udpfs)

module _ {F : Type 0} where
  abbrev pub find_peer : ℕ → Peers F → Option (Peer F)
  find_peer a [] = none
  find_peer a ((k, p) ∷ rest) = if k == a then some p else find_peer a rest

  abbrev pub set_peer : ℕ → Peer F → Peers F → Peers F
  set_peer a p [] = (a, p) ∷ []
  set_peer a p ((k, q) ∷ rest) = if k == a then (a, p) ∷ rest else (k, q) ∷ set_peer a p rest

  unfoldable pub new_server : F → ℕ → Server F
  new_server files timeout = record { peers = []; files = files; peer_timeout = timeout }

  -- The connection of a known peer, or a new one
  unfoldable pub connection_for : Option (Peer F) → F → Connection F
  connection_for none files = new_connection new_session files
  connection_for (some p) files = record p.connection { files = files }

  -- The reset callback of the session
  unfoldable pub call_back : FileSystem F → Bool → Connection F → Outcome (Connection F)
  call_back fs true c = reset_peer fs c
  call_back fs false c = ok c

  unfoldable pub deliver : FileSystem F → Received → Connection F → Outcome (Connection F)
  deliver fs (payload bytes) c = handle_payload fs bytes c >>= λ r. ok r.1
  deliver fs invalid c = ok c
  deliver fs nothing c = ok c

  -- A packet for a connection. A packet resets its session once at most.
  unfoldable pub receive : FileSystem F → List ℕ → Connection F → Outcome (Connection F)
  receive fs packet c = process_data_packet packet c.session >>= λ r.
      call_back fs (ltb (resets c.session.trace) (resets r.1.trace)) (record c { session = r.1 })
      >>= λ d. deliver fs r.0 d

  unfoldable pub handle_data : FileSystem F → List ℕ → ℕ → ℕ → Server F → Outcome (Server F)
  handle_data fs packet a now s =
      receive fs packet (connection_for (find_peer a s.peers) s.files) >>= λ c. ok (record s {
        peers = set_peer a (record { connection = c; last_seen = now }) s.peers;
        files = c.files;
      })

  -- One round of `dataHandler`
  unfoldable pub data_handler : FileSystem F → List ℕ → ℕ → ℕ → Server F → Outcome (Server F)
  data_handler fs packet a now s =
      if ltb (length packet) 6 then ok s else handle_data fs packet a now s

  -- A peer that is kept, or one that is closed
  unfoldable pub clean_peer :
      FileSystem F → Bool → ℕ → Peer F → F → Outcome (Option (ℕ × Peer F) × F)
  clean_peer fs true a p files =
      close_connection fs (record p.connection { files = files }) >>= λ c. ok (none, c.files)
  clean_peer fs false a p files = ok (some (a, p), files)

  abbrev pub keep : Option (ℕ × Peer F) → Peers F → Peers F
  keep none rest = rest
  keep (some p) rest = p ∷ rest

  unfoldable pub cleanup_loop : FileSystem F → ℕ → ℕ → Peers F → F → Outcome (Peers F × F)
  cleanup_loop fs timeout now [] files = ok ([], files)
  cleanup_loop fs timeout now ((a, p) ∷ rest) files =
      clean_peer fs (leb timeout (now - p.last_seen)) a p files >>= λ r.
      cleanup_loop fs timeout now rest r.1 >>= λ t. ok (keep r.0 t.0, t.1)

  -- One round of `cleanup`
  unfoldable pub cleanup : FileSystem F → ℕ → Server F → Outcome (Server F)
  cleanup fs now s = cleanup_loop fs s.peer_timeout now s.peers s.files >>= λ r.
      ok (record s { peers = r.0; files = r.1 })

  -- The acknowledgement timer of a peer's session fires.
  unfoldable pub fire : Option (Peer F) → ℕ → Server F → Server F
  fire none a s = s
  fire (some p) a s = record s {
    peers =
        set_peer a
          (record p {
            connection = record p.connection { session = ack_timer_func p.connection.session };
          })
          s.peers;
  }

-- What can happen to a server, with the address and the time: a datagram, a round of `cleanup`, a timer
pub data Happening : Type 0 where
  arrives : ℕ → ℕ → List ℕ → Happening
  ticks : ℕ → Happening
  times_out : ℕ → Happening

module _ {F : Type 0} where
  unfoldable pub step : FileSystem F → Happening → Server F → Outcome (Server F)
  step fs (arrives a now packet) s = data_handler fs packet a now s
  step fs (ticks now) s = cleanup fs now s
  step fs (times_out a) s = ok (fire (find_peer a s.peers) a s)

  unfoldable pub run : FileSystem F → List Happening → Server F → Outcome (Server F)
  run fs [] s = ok s
  run fs (h ∷ hs) s = step fs h s >>= run fs hs
