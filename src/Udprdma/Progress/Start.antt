-- ===== src/Udprdma/Progress/Start.antt =====
-- udprdma/session_tx.go: the state in which a reply is started.
use udpfsd.Common.{ℕ, ◌+◌, ◌%◌, ◌<◌, ◌≤◌, ◌≡◌, refl, arith, List, ◌++◌, length}
use udpfsd.Udprdma.Session.{Session, stop_ack_timer, reset_send_state}
use udpfsd.Udprdma.Transmit.{start_transfer, optimal_chunk_size, first_data_max}
use udpfsd.Udprdma.Transfer.Total.{remaining}
use udpfsd.Udprdma.Transfer.Bytes.{unsent, IsAligned}
use udpfsd.Udprdma.Invariant.{
  IsSession, reset_send_state-IsSession, start_transfer-IsSession, optimal_chunk_size_lem,
}

-- The state in which `SendRawDataWithHeader` enters the loop
unfoldable pub started : List ℕ → List ℕ → Session → Session
started header bytes s =
    start_transfer header bytes (optimal_chunk_size (length bytes)) (reset_send_state s)

pub started-IsSession :
    (header bytes : List ℕ) (s : Session)
    → IsSession s
    → length header < 1408
    → IsSession (started header bytes s)
unfolding started first_data_max
started-IsSession header bytes s i h =
    let most = optimal_chunk_size_lem (length bytes) in
    start_transfer-IsSession header bytes _ (reset_send_state-IsSession i) (ground (arith, most))
      (omega (arith, most)) (λ p. omega (arith, most))

pub started-IsAligned :
    (header bytes : List ℕ) (s : Session)
    → length header % 4 ≡ 0
    → length header < 64
    → IsAligned (started header bytes s).transfer
unfolding started
started-IsAligned header bytes s h w = record {
  chunk = omega (arith, optimal_chunk_size_lem (length bytes));
  header = h;
  words = w;
}

pub unsent-started :
    (header bytes : List ℕ) (s : Session)
    → unsent (started header bytes s).transfer ≡ header ++ bytes
unfolding started unsent
unsent-started header bytes s = refl

pub trace-started : (header bytes : List ℕ) (s : Session) → (started header bytes s).trace ≡ s.trace
unfolding started reset_send_state stop_ack_timer
trace-started header bytes s = refl

pub remaining-started :
    (header bytes : List ℕ) (s : Session)
    → remaining (started header bytes s).transfer ≤ length bytes + 1
unfolding started remaining
remaining-started header bytes s = omega arith

pub tx-started :
    (header bytes : List ℕ) (s : Session) → (started header bytes s).tx_seq_nr ≡ s.tx_seq_nr
unfolding started reset_send_state stop_ack_timer
tx-started header bytes s = refl
