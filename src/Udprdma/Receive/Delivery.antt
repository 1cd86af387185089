-- ===== src/Udprdma/Receive/Delivery.antt =====
-- udprdma/session_rx.go: which packets are delivered, and in which order.
use udpfsd.Common.{
  ℕ, ◌+◌, ◌%◌, ◌<◌, ◌≡◌, ◌≢◌, ◌⊎◌, inl, inr, refl, arith, ap, ◌∙◌, List, Bool, true, false, some,
  if◌then◌else◌, ◌==◌, ok, take, drop, Bool-cases, Returns, Returns-ok,
}
use udpfsd.Udprdma.Protocol.{DataHeader, unpack_header, unpack_data_header, packet_data}
use udpfsd.Udprdma.Session.{
  Session, reset_session, stop_ack_timer, clear_transfer, is_empty, seq_between,
}
use udpfsd.Udprdma.AckTimer.{has_payload}
use udpfsd.Udprdma.AckTimer.Frame.{IsTimerOf, update_ack_timer-frame}
use udpfsd.Udprdma.Transmit.{send_ack, first_unacked, prune_acked, retransmit_from, write_batch}
use udpfsd.Udprdma.Acks.{on_peer_ack, on_ack, on_peer_nack, last_sent}
use udpfsd.Udprdma.Receive.{
  Received, nothing, payload, invalid, ack_if, payload_size, is_ack, count_rx, count_peer_nack,
  count_unexpected,
}
use udpfsd.Udprdma.Transfer.{Rounds, done, more, Ends, idle, full, used}
use udpfsd.Udprdma.Invariant.{
  IsSession, Handled, handle_transfer-Handled, Handled-IsSession, rx-Round,
}
use udpfsd.Udprdma.Invariant.Receiving.{
  on_ack-IsSession, on_peer_nack-IsSession, send_ack-IsSession,
}

-- A session in which `n` is the number expected next
pub record Expects (n : ℕ) (s : Session) : Type 0 where
  pub session : IsSession s
  pub number : s.rx_seq_expected ≡ n

rx-timer : {s t : Session} → IsTimerOf s t → t.rx_seq_expected ≡ s.rx_seq_expected
rx-timer f = ap (λ (x : Session). x.rx_seq_expected) f.same

rx-Rounds :
    {s u : Session} {pkts : List (List ℕ)} → Rounds s pkts u → u.rx_seq_expected ≡ s.rx_seq_expected
rx-Rounds done = refl
rx-Rounds (more r rs) = rx-Rounds rs ∙ rx-Round r

rx-Ends : {s t : Session} → Ends s t → t.rx_seq_expected ≡ s.rx_seq_expected
unfolding clear_transfer
rx-Ends (idle p e) = rw e
rx-Ends (full p e) = rw e
rx-Ends (used b p h k e) = rw e

Handled-Expects : {n : ℕ} {s t : Session} → Handled s t → Expects n s → Expects n t
Handled-Expects {n} {s} {t} h x = record {
  session = Handled-IsSession h x.session;
  number =
      ap (λ (u : Session). u.rx_seq_expected) h.finish
      ∙ rx-timer (update_ack_timer-frame (write_batch h.pkts h.after))
      ∙ rx-Ends h.ends
      ∙ rx-Rounds h.rounds
      ∙ x.number;
}

rx-on_ack : (ack : ℕ) (s : Session) → (on_ack ack s).rx_seq_expected ≡ s.rx_seq_expected
unfolding on_ack prune_acked stop_ack_timer
rx-on_ack ack s = elim (Bool-cases (is_empty s.ring)) [
  | inl none_sent ↦ rw none_sent
  | inr sent ↦ elim (Bool-cases (seq_between s.tx_seq_nr_acked ack (last_sent s))) [
    | inr stale ↦ rw (sent, stale)
    | inl fresh ↦ elim (Bool-cases (ack == last_sent s)) [
      | inl all ↦ rw (sent, fresh, all)
      | inr part ↦ rw (sent, fresh, part) (rx-timer (update_ack_timer-frame _))
    ]
  ]
]

pub on_peer_ack-Expects :
    {n : ℕ} (ack : ℕ) (s : Session)
    → Expects n s
    → ack < 4096
    → Returns (Expects n) (on_peer_ack ack s)
unfolding on_peer_ack
on_peer_ack-Expects {n} ack s x h = elim (Bool-cases (has_payload (on_ack ack s).transfer)) [
  | inl sending ↦
      let r = handle_transfer-Handled (on_ack ack s) y.session in
      rw sending (record { value = r.value; result = r.result; holds = Handled-Expects r.holds y })
  | inr off ↦ rw off (Returns-ok _ y)
]
  where
    y : Expects n (on_ack ack s)
    y = record { session = on_ack-IsSession ack s x.session h; number = rx-on_ack ack s ∙ x.number }

pub ack_if-Expects :
    {n : ℕ} (b : Bool) (ack : ℕ) (s : Session)
    → Expects n s
    → ack < 4096
    → Returns (Expects n) (ack_if b ack s)
unfolding ack_if
ack_if-Expects true ack s x h = on_peer_ack-Expects ack s x h
ack_if-Expects false ack s x h = Returns-ok s x

rx-retransmit_from :
    (from : ℕ) (s : Session) → (retransmit_from from s).1.rx_seq_expected ≡ s.rx_seq_expected
unfolding retransmit_from
rx-retransmit_from from s = refl

pub nack_if-Expects :
    {n : ℕ} (b : Bool) (from : ℕ) {s : Session}
    → Expects n s
    → Expects n (if b then on_peer_nack from s else s)
unfolding on_peer_nack
nack_if-Expects true from x = record {
  session = on_peer_nack-IsSession from _ x.session;
  number = rx-timer (update_ack_timer-frame _) ∙ rx-retransmit_from from _ ∙ x.number;
}
nack_if-Expects false from x = x

pub send_ack-Expects : {n : ℕ} (ack : Bool) {s : Session} → Expects n s → Expects n (send_ack ack s)
unfolding send_ack
send_ack-Expects ack {s} x = record {
  session = send_ack-IsSession ack s x.session;
  number = x.number;
}

-- The packet is a DATA packet of this number, with this data header.
pub record IsData (packet : List ℕ) (seq : ℕ) (h : DataHeader) : Type 0 where
  pub header : unpack_header packet ≡ some (record { packet_type = packet_data; seq_nr = seq })
  pub fields : unpack_data_header (take 4 (drop 2 packet)) ≡ some h

abbrev pub size : List ℕ → DataHeader → ℕ
size packet h = payload_size h (drop 6 packet)

-- What the ACK in a packet with a payload does: the session that it leaves, if it is flagged
pub data AckTaken (h : DataHeader) (s t : Session) : Type 0 where
  taken : h.flags % 2 ≡ 1 → on_peer_ack h.seq_nr_ack s ≡ ok t → AckTaken h s t
  no_ack : h.flags % 2 ≡ 0 → t ≡ s → AckTaken h s t

pub is_ack-flag : (h : DataHeader) → is_ack h ≡ true → h.flags % 2 ≡ 1
is_ack-flag h e = ground arith

pub not_ack-flag : (h : DataHeader) → is_ack h ≡ false → h.flags % 2 ≡ 0
not_ack-flag h e = ground arith

pub ack_if-AckTaken :
    {n : ℕ} (h : DataHeader) (s : Session)
    → Expects n s
    → h.seq_nr_ack < 4096
    → Returns (λ t. AckTaken h s t × Expects n t) (ack_if (is_ack h) h.seq_nr_ack s)
unfolding ack_if
ack_if-AckTaken h s x small = elim (Bool-cases (is_ack h)) [
  | inl ack ↦
      let r = on_peer_ack-Expects h.seq_nr_ack s x small in
      rw ack (record {
        value = r.value;
        result = r.result;
        holds = (taken (is_ack-flag h ack) r.result, r.holds);
      })
  | inr off ↦ rw off (Returns-ok s (no_ack (not_ack-flag h off) refl, x))
]

-- What becomes of a packet, and of the session
pub data Reception (packet : List ℕ) (s : Session) : Received × Session → Type 0 where
  rejected : ((seq : ℕ) (h : DataHeader) → ¬ IsData packet seq h) → Reception packet s (invalid, s)
  acked :
      {seq : ℕ} {h : DataHeader} {t : Session}
      → IsData packet seq h
      → size packet h ≡ 0
      → h.flags % 2 ≡ 1
      → on_peer_ack h.seq_nr_ack (count_rx s) ≡ ok t
      → Expects s.rx_seq_expected t
      → Reception packet s (nothing, t)
  nacked :
      {seq : ℕ} {h : DataHeader} {t : Session}
      → IsData packet seq h
      → size packet h ≡ 0
      → h.flags % 2 ≡ 0
      → t ≡ on_peer_nack h.seq_nr_ack (count_peer_nack (count_rx s))
      → Expects s.rx_seq_expected t
      → Reception packet s (nothing, t)
  delivered :
      {seq : ℕ} {h : DataHeader} {u t : Session}
      → IsData packet seq h
      → size packet h ≢ 0
      → ((seq ≡ s.rx_seq_expected) × (u ≡ count_rx s))
        ⊎ ((seq ≡ 0)
            × (seq ≢ s.rx_seq_expected)
            × (s.rx_seq_expected ≢ 1)
            × (u ≡ reset_session (count_rx s)))
      → AckTaken h (send_ack true (record u { rx_seq_expected = (seq + 1) % 4096 })) t
      → Expects ((seq + 1) % 4096) t
      → Reception packet s (payload (take (size packet h) (drop 6 packet)), t)
  repeated :
      {seq : ℕ} {h : DataHeader} {u t : Session}
      → IsData packet seq h
      → size packet h ≢ 0
      → (seq + 1) % 4096 ≡ s.rx_seq_expected
      → AckTaken h (send_ack true (count_unexpected (count_rx s))) u
      → t ≡ (if has_payload s.transfer then on_peer_nack (first_unacked s) u else u)
      → Expects s.rx_seq_expected t
      → Reception packet s (nothing, t)
  unexpected :
      {seq : ℕ} {h : DataHeader} {t : Session}
      → IsData packet seq h
      → size packet h ≢ 0
      → seq ≢ s.rx_seq_expected
      → (seq + 1) % 4096 ≢ s.rx_seq_expected
      → seq ≢ 0
      → AckTaken h (send_ack false (count_unexpected (count_rx s))) t
      → Expects s.rx_seq_expected t
      → Reception packet s (nothing, t)
