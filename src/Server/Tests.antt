-- ===== src/Server/Tests.antt =====
-- The theorems on internal/udpfsd/ at concrete values, over the backend.
use udpfsd.Common.{ℕ, ◌≡◌, refl, subst, arith, List, [], ◌∷◌, byte_at, take, drop, Returns}
use mathlib.Core.Option.{some-injective}
use udpfsd.Udprdma.Protocol.{DataHeader, unpack_header, unpack_data_header}
use udpfsd.Udprdma.Session.{new_session}
use udpfsd.Udprdma.Invariant.{new_session-IsSession}
use udpfsd.Udprdma.Invariant.Life.{set_reset_callback-IsSession}
use udpfsd.Udprdma.Receive.Delivery.{size}
use udpfsd.Udpfs.Connection.{new_connection}
use udpfsd.Udpfs.Laws.{IsConnection}
use udpfsd.Udpfs.Safety.Writing.{IsFair}
use udpfsd.Fs.Files.{Files}
use udpfsd.Fs.Opening.Total.{SmallSectors}
use udpfsd.Fs.Opening.Sample.{plain_backend, plain_backend-IsFileSystem, no_files}
use udpfsd.Server.{Server, arrives, ticks, times_out, new_server, cleanup, run}
use udpfsd.Server.Fairness.{AnyFiles, IsFairPacket, IsServer}
use udpfsd.Server.Safety.{run-IsServer}
use udpfsd.Server.Peers.{recent, cleanup-recent}

-- A DATA packet with sequence number 0 and a request to read two bytes of handle 1
abbrev read_packet : List ℕ
read_packet = 2 ∷ 0 ∷ 0 ∷ 0 ∷ 48 ∷ 0 ∷ 20 ∷ 0 ∷ 0 ∷ 0 ∷ 1 ∷ 0 ∷ 0 ∷ 0 ∷ 2 ∷ 0 ∷ 0 ∷ 0 ∷ []

-- The payload of twelve bytes
read_payload-IsFair : IsFair 0x14 (drop 6 read_packet)
read_payload-IsFair = record {
  handle = λ e. omega arith;
  some_dir = λ e. absurd (omega arith);
  size = λ e. omega arith;
  count = λ e. absurd (omega arith);
}

read_packet-IsFairPacket : IsFairPacket read_packet
unfolding unpack_data_header
read_packet-IsFairPacket seq h d =
    subst
      (λ (g : DataHeader).
        let bytes = take (size read_packet g) (drop 6 read_packet) in
        IsFair (byte_at bytes 0) bytes)
      (some-injective _ _ d.fields) read_payload-IsFair

abbrev short_packet : List ℕ
short_packet = 1 ∷ []

short_packet-IsFairPacket : IsFairPacket short_packet
unfolding unpack_header
short_packet-IsFairPacket seq h d = absurd (let a = d.header in cc)

run-IsServer_example : Returns (IsServer SmallSectors) (
    run plain_backend
      (arrives 1 5 read_packet ∷ times_out 1 ∷ arrives 2 6 short_packet ∷ ticks 90 ∷ [])
      (new_server no_files 60))
run-IsServer_example =
    run-IsServer plain_backend-IsFileSystem
      (arrives 1 5 read_packet ∷ times_out 1 ∷ arrives 2 6 short_packet ∷ ticks 90 ∷ []) no_files 60
      (read_packet-IsFairPacket, (short_packet-IsFairPacket, tt)) (omega arith)

abbrev two_peers : Server (Files ℕ)
two_peers = record {
  peers =
      (1, record { connection = new_connection new_session no_files; last_seen = 10 })
      ∷ (2, record { connection = new_connection new_session no_files; last_seen = 90 })
      ∷ [];
  files = no_files;
  peer_timeout = 60;
}

new_known : IsConnection AnyFiles (new_connection {F = Files ℕ} new_session no_files)
unfolding new_connection
new_known = record {
  of_session = set_reset_callback-IsSession new_session new_session-IsSession;
  of_files = tt;
  of_handles = tt;
  of_write = λ n. absurd (n refl);
}

cleanup-recent_example :
    Returns
      (λ t. t.peers ≡ recent two_peers.peer_timeout 100 two_peers.peers)
      (cleanup plain_backend 100 two_peers)
cleanup-recent_example =
    cleanup-recent plain_backend-IsFileSystem 100 two_peers
      (record { sessions = (new_known, (new_known, tt)); of_files = omega arith })
