-- ===== src/Server/Fairness.antt =====
-- internal/udpfsd/: what is asked of the packets that the server gets, and what it keeps of its peers.
use udpfsd.Common.{
  ℕ, ◌==◌, Option, none, some, List, [], ◌∷◌, take, drop, byte_at, Bool-cases, inl, inr,
}
use udpfsd.Udprdma.Protocol.{DataHeader}
use udpfsd.Udprdma.Receive.Delivery.{
  IsData, size, Reception, rejected, acked, nacked, delivered, repeated, unexpected,
}
use udpfsd.Udprdma.Session.{Session}
use udpfsd.Udprdma.Receive.{Received, invalid, nothing, payload}
use udpfsd.Udprdma.Invariant.{IsSession}
use udpfsd.Udpfs.Connection.{Connection}
use udpfsd.Udpfs.Laws.{IsConnection}
use udpfsd.Udpfs.Safety.Writing.{IsFair}
use udpfsd.Server.{Peer, Peers, Server, find_peer, set_peer, Happening, arrives, ticks, times_out}

-- A peer's own files are not used: those of the server stand in for them.
abbrev pub AnyFiles : {F : Type 0} → F → Type 0
AnyFiles s = Unit

abbrev pub IsPeer : {F : Type 0} → Peer F → Type 0
IsPeer p = IsConnection AnyFiles p.connection

abbrev pub AllSessions : {F : Type 0} → Peers F → Type 0
AllSessions [] = Unit
AllSessions ((a, p) ∷ rest) = IsPeer p × AllSessions rest

-- The payload that a packet delivers, if it delivers one, is a fair request.
abbrev pub IsFairPacket : List ℕ → Type 0
IsFairPacket packet =
    (seq : ℕ) (h : DataHeader)
    → IsData packet seq h
    → let bytes = take (size packet h) (drop 6 packet) in IsFair (byte_at bytes 0) bytes

abbrev pub AllFair : List Happening → Type 0
AllFair [] = Unit
AllFair (arrives a now packet ∷ hs) = IsFairPacket packet × AllFair hs
AllFair (ticks now ∷ hs) = AllFair hs
AllFair (times_out a ∷ hs) = AllFair hs

abbrev pub IsFairReceived : Received → Type 0
IsFairReceived (payload bytes) = IsFair (byte_at bytes 0) bytes
IsFairReceived invalid = Unit
IsFairReceived nothing = Unit

pub fair_received :
    {packet : List ℕ} {s : Session} {r : Received × Session}
    → IsFairPacket packet
    → IsSession s
    → Reception packet s r
    → IsFairReceived r.0 × IsSession r.1
fair_received f i (rejected n) = (tt, i)
fair_received f i (acked d e a o x) = (tt, x.session)
fair_received f i (nacked d e a o x) = (tt, x.session)
fair_received f i (delivered {seq = seq} {h = h} d e w a x) = (f seq h d, x.session)
fair_received f i (repeated d e b a o x) = (tt, x.session)
fair_received f i (unexpected d e b a z k x) = (tt, x.session)

pub record IsServer {F : Type 0} (P : F → Type 0) (s : Server F) : Type 0 where
  pub sessions : AllSessions s.peers
  pub of_files : P s.files

module _ {F : Type 0} where
  abbrev pub KnownSession : Option (Peer F) → Type 0
  KnownSession none = Unit
  KnownSession (some p) = IsPeer p

  pub find_peer-IsSession : (a : ℕ) (ps : Peers F) → AllSessions ps → KnownSession (find_peer a ps)
  find_peer-IsSession a [] i = tt
  find_peer-IsSession a ((k, p) ∷ rest) i = elim (Bool-cases (k == a)) [
    | inl e ↦ rw e i.0
    | inr e ↦ rw e (find_peer-IsSession a rest i.1)
  ]

  pub set_peer-AllSessions :
      (a : ℕ) (p : Peer F) (ps : Peers F)
      → IsPeer p
      → AllSessions ps
      → AllSessions (set_peer a p ps)
  set_peer-AllSessions a p [] j i = (j, tt)
  set_peer-AllSessions a p ((k, q) ∷ rest) j i = elim (Bool-cases (k == a)) [
    | inl e ↦ rw e (j, i.1)
    | inr e ↦ rw e (i.0, set_peer-AllSessions a p rest j i.1)
  ]

module _ {F : Type 0} {P : F → Type 0} where
  pub as_peer : (c : Connection F) → IsConnection P c → IsConnection AnyFiles c
  as_peer c i = record {
    of_session = i.of_session;
    of_files = tt;
    of_handles = i.of_handles;
    of_write = i.of_write;
  }

  pub with_files :
      (c : Connection F) (files : F)
      → IsConnection AnyFiles c
      → P files
      → IsConnection P (record c { files = files })
  with_files c files k i = record {
    of_session = k.of_session;
    of_files = i;
    of_handles = k.of_handles;
    of_write = k.of_write;
  }
