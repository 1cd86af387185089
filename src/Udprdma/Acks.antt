-- ===== src/Udprdma/Acks.antt =====
-- udprdma/acks.go: the peer's ACKs and NACKs.
pub mod Sequence
use udpfsd.Common.{ℕ, ◌==◌, false, not, if◌then◌else◌, low_bits, sub16, Outcome, ok}
use udpfsd.Udprdma.Session.{Session, is_empty, seq_between, stop_ack_timer}
use udpfsd.Udprdma.AckTimer.{update_ack_timer, has_payload}
use udpfsd.Udprdma.Transmit.{prune_acked, retransmit_from, handle_transfer}

abbrev pub last_sent : Session → ℕ
last_sent s = low_bits (sub16 s.tx_seq_nr 1) 12

unfoldable pub on_ack : ℕ → Session → Session
on_ack ack s =
    if is_empty s.ring
    then s
    else if not (seq_between s.tx_seq_nr_acked ack (last_sent s))
    then s
    else let s1 = prune_acked ack (record s { tx_seq_nr_acked = ack }) in
      let s2 = record s1 { retransmit_attempts = 0 } in
      if ack == last_sent s
      then record (stop_ack_timer s2) { fin_pending = false }
      else update_ack_timer s2

unfoldable pub on_peer_ack : ℕ → Session → Outcome Session
on_peer_ack seq s =
    let s1 = on_ack seq s in if has_payload s1.transfer then handle_transfer s1 else ok s1

unfoldable pub on_peer_nack : ℕ → Session → Session
on_peer_nack seq s = update_ack_timer (retransmit_from seq (record s { retransmit_attempts = 0 })).1
