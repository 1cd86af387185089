-- ===== src/Udprdma/Invariant/Receiving.antt =====
-- udprdma/acks.go and udprdma/session_rx.go keep the invariant, and no received packet panics.
use udpfsd.Common.{
  ℕ, ◌+◌, ◌<◌, ◌≤◌, ◌≡◌, refl, arith, List, Bool, true, false, if◌then◌else◌, ◌==◌, length, Returns,
  Returns-ok, Returns-bind, Option, none, some, Bool-cases, inl, inr, drop, low_bits, sub16, u16,
  le→ltb,
}
use udpfsd.Udprdma.Protocol.{packet_data, Header, DataHeader, unpack_header, unpack_data_header}
use udpfsd.Udprdma.Session.{Session, Metrics, is_empty, seq_between}
use udpfsd.Udprdma.AckTimer.{has_payload}
use udpfsd.Udprdma.AckTimer.Frame.{update_ack_timer-frame, stop_ack_timer-frame}
use udpfsd.Udprdma.Transmit.{prune_acked, retransmit_from, send_ack}
use udpfsd.Udprdma.Acks.{on_ack, on_peer_ack, on_peer_nack, last_sent}
use udpfsd.Udprdma.Receive.{
  Received, ack_if, receive_control, receive_previous, receive_unexpected, accept, receive_payload,
  receive_data, receive_header, payload_size, process_data_packet, is_ack,
}
use udpfsd.Udprdma.Window.Prune.{prune_acked_lem}
use udpfsd.Udprdma.Invariant.{
  IsSession, timer-IsSession, handle_transfer-IsSession, reset_session-IsSession,
}

-- The state after the pruning of `on_ack`
pruned-IsSession :
    (ack : ℕ) {s : Session}
    → IsSession s
    → ack < 4096
    → IsSession
        (record (prune_acked ack (record s { tx_seq_nr_acked = ack })) { retransmit_attempts = 0 })
unfolding prune_acked
pruned-IsSession ack {s} i h = record {
  window = (prune_acked_lem ack s i.window h).0;
  sendable = i.sendable;
  rx_in = i.rx_in;
}

pub fin_pending-IsSession :
    (b : Bool) {s : Session} → IsSession s → IsSession (record s { fin_pending = b })
fin_pending-IsSession b i = record { window = i.window; sendable = i.sendable; rx_in = i.rx_in }

pub on_ack-IsSession : (ack : ℕ) (s : Session) → IsSession s → ack < 4096 → IsSession (on_ack ack s)
unfolding on_ack
on_ack-IsSession ack s i h = elim (Bool-cases (is_empty s.ring)) [
  | inl none_sent ↦ rw none_sent i
  | inr sent ↦ elim (Bool-cases (seq_between s.tx_seq_nr_acked ack (last_sent s))) [
    | inr stale ↦ rw (sent, stale) i
    | inl fresh ↦ elim (Bool-cases (ack == last_sent s)) [
      | inl all ↦
          rw (sent, fresh, all)
            (fin_pending-IsSession false
              (timer-IsSession (stop_ack_timer-frame _) (pruned-IsSession ack i h)))
      | inr part ↦
          rw (sent, fresh, part)
            (timer-IsSession (update_ack_timer-frame _) (pruned-IsSession ack i h))
    ]
  ]
]

pub on_peer_ack-IsSession :
    (ack : ℕ) (s : Session) → IsSession s → ack < 4096 → Returns IsSession (on_peer_ack ack s)
unfolding on_peer_ack
on_peer_ack-IsSession ack s i h =
    let j = on_ack-IsSession ack s i h in
    elim (Bool-cases (has_payload (on_ack ack s).transfer)) [
      | inl sending ↦ rw sending (handle_transfer-IsSession (on_ack ack s) j)
      | inr idle ↦ rw idle (Returns-ok _ j)
    ]

pub retransmit_from-IsSession :
    (from : ℕ) (s : Session) → IsSession s → IsSession (retransmit_from from s).1
unfolding retransmit_from
retransmit_from-IsSession from s i = record {
  window = i.window;
  sendable = i.sendable;
  rx_in = i.rx_in;
}

pub attempts-IsSession :
    (n : ℕ) {s : Session} → IsSession s → IsSession (record s { retransmit_attempts = n })
attempts-IsSession n i = record { window = i.window; sendable = i.sendable; rx_in = i.rx_in }

pub metrics-IsSession :
    (m : Metrics) {s : Session} → IsSession s → IsSession (record s { metrics = m })
metrics-IsSession m i = record { window = i.window; sendable = i.sendable; rx_in = i.rx_in }

pub on_peer_nack-IsSession :
    (from : ℕ) (s : Session) → IsSession s → IsSession (on_peer_nack from s)
unfolding on_peer_nack
on_peer_nack-IsSession from s i =
    timer-IsSession (update_ack_timer-frame _)
      (retransmit_from-IsSession from _ (attempts-IsSession 0 i))

pub send_ack-IsSession : (ack : Bool) (s : Session) → IsSession s → IsSession (send_ack ack s)
unfolding send_ack
send_ack-IsSession ack s i = record { window = i.window; sendable = i.sendable; rx_in = i.rx_in }

ack_if-IsSession :
    (b : Bool) (ack : ℕ) (s : Session)
    → IsSession s
    → ack < 4096
    → Returns IsSession (ack_if b ack s)
unfolding ack_if
ack_if-IsSession true ack s i h = on_peer_ack-IsSession ack s i h
ack_if-IsSession false ack s i h = Returns-ok s i

-- What a received packet leaves behind
abbrev After : Received × Session → Type 0
After r = IsSession r.1

receive_control-After :
    (h : DataHeader) (s : Session)
    → IsSession s
    → h.seq_nr_ack < 4096
    → Returns After (receive_control h s)
unfolding receive_control
receive_control-After h s i lt = elim (Bool-cases (is_ack h)) [
  | inl ack ↦ rw ack (
      Returns-bind {P = IsSession} _ _ (on_peer_ack-IsSession h.seq_nr_ack s i lt)
        (λ t j. Returns-ok _ j))
  | inr nack ↦
      rw nack (Returns-ok _ (on_peer_nack-IsSession h.seq_nr_ack _ (metrics-IsSession _ i)))
]

nack_if-IsSession :
    (b : Bool) (from : ℕ) (s : Session)
    → IsSession s
    → IsSession (if b then on_peer_nack from s else s)
nack_if-IsSession true from s i = on_peer_nack-IsSession from s i
nack_if-IsSession false from s i = i

receive_previous-After :
    (h : DataHeader) (s : Session)
    → IsSession s
    → h.seq_nr_ack < 4096
    → Returns After (receive_previous h s)
unfolding receive_previous
receive_previous-After h s i lt =
    Returns-bind {P = IsSession} _ _
      (ack_if-IsSession (is_ack h) h.seq_nr_ack _
        (send_ack-IsSession true _ (metrics-IsSession _ i)) lt)
      (λ t j. Returns-ok _ (nack_if-IsSession (has_payload s.transfer) _ t j))

receive_unexpected-After :
    (h : DataHeader) (s : Session)
    → IsSession s
    → h.seq_nr_ack < 4096
    → Returns After (receive_unexpected h s)
unfolding receive_unexpected
receive_unexpected-After h s i lt =
    Returns-bind {P = IsSession} _ _
      (ack_if-IsSession (is_ack h) h.seq_nr_ack _
        (send_ack-IsSession false _ (metrics-IsSession _ i)) lt)
      (λ t j. Returns-ok _ j)

accept-After :
    (seq : ℕ) (h : DataHeader) (bytes : List ℕ) (s : Session)
    → IsSession s
    → h.seq_nr_ack < 4096
    → Returns After (accept seq h bytes s)
unfolding accept
accept-After seq h bytes s i lt =
    Returns-bind {P = IsSession} _ _
      (ack_if-IsSession (is_ack h) h.seq_nr_ack _ (send_ack-IsSession true _ moved) lt)
      (λ t j. Returns-ok _ j)
  where
    moved : IsSession (record s { rx_seq_expected = low_bits (u16 (seq + 1)) 12 })
    moved = record { window = i.window; sendable = i.sendable; rx_in = omega arith }

receive_payload-After :
    (seq : ℕ) (h : DataHeader) (bytes : List ℕ) (s : Session)
    → IsSession s
    → h.seq_nr_ack < 4096
    → Returns After (receive_payload seq h bytes s)
unfolding receive_payload
receive_payload-After seq h bytes s i lt = elim (Bool-cases (seq == s.rx_seq_expected)) [
  | inl here ↦ rw here (accept-After seq h bytes s i lt)
  | inr other ↦ elim (Bool-cases (seq == low_bits (sub16 s.rx_seq_expected 1) 12)) [
    | inl before ↦ rw (other, before) (receive_previous-After h s i lt)
    | inr away ↦ elim (Bool-cases (seq == 0)) [
      | inl zero ↦
          rw (other, away, zero) (accept-After seq h bytes _ (reset_session-IsSession i) lt)
      | inr lost ↦ rw (other, away, lost) (receive_unexpected-After h s i lt)
    ]
  ]
]

pub seq_nr_ack-lt :
    (b : List ℕ) {h : DataHeader} → unpack_data_header b ≡ some h → h.seq_nr_ack < 4096
unfolding unpack_data_header
seq_nr_ack-lt b e = ground arith

receive_data-After :
    (seq : ℕ) (bytes : List ℕ) (o : Option DataHeader) (s : Session)
    → IsSession s
    → ((h : DataHeader) → o ≡ some h → h.seq_nr_ack < 4096)
    → Returns After (receive_data seq bytes o s)
unfolding receive_data
receive_data-After seq bytes none s i lt = Returns-ok _ i
receive_data-After seq bytes (some h) s i lt = elim (Bool-cases (payload_size h bytes == 0)) [
  | inl empty ↦ rw empty (receive_control-After h _ (metrics-IsSession _ i) (lt h refl))
  | inr more ↦ rw more (receive_payload-After seq h _ _ (metrics-IsSession _ i) (lt h refl))
]

receive_header-After :
    (packet : List ℕ) (o : Option Header) (s : Session)
    → IsSession s
    → 6 ≤ length packet
    → Returns After (receive_header packet o s)
unfolding receive_header
receive_header-After packet none s i long = Returns-ok _ i
receive_header-After packet (some hdr) s i long =
    elim (Bool-cases (hdr.packet_type == packet_data)) [
      | inr other ↦ rw other (Returns-ok _ i)
      | inl here ↦
          rw (here, le→ltb (length packet) 6 long)
            (receive_data-After hdr.seq_nr (drop 6 packet) _ s i (λ h e. seq_nr_ack-lt _ e))
    ]

-- In a session with the invariant, a packet of at least six bytes, whatever is in it, is processed
-- without a panic, and the invariant holds after it.
pub process_data_packet-IsSession :
    (packet : List ℕ) (s : Session)
    → IsSession s
    → 6 ≤ length packet
    → Returns (λ r. IsSession r.1) (process_data_packet packet s)
unfolding process_data_packet
process_data_packet-IsSession packet s i long =
    receive_header-After packet (unpack_header packet) s i long
