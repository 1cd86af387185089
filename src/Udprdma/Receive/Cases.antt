-- ===== src/Udprdma/Receive/Cases.antt =====
-- udprdma/session_rx.go: every branch of ProcessDataPacket.
use udpfsd.Common.{
  ℕ, ◌+◌, ◌%◌, ◌<◌, ◌≤◌, ◌≡◌, ◌≢◌, ◌⊎◌, inl, inr, refl, ap, ◌∙◌, arith, List, true, false, Option,
  none, some, ◌==◌, length, take, drop, Bool-cases, low_bits, sub16, u16, Returns, Returns-ok,
  Returns-bind, le→ltb, Option-cases, length-take, length-drop,
}
use udpfsd.Udprdma.Protocol.{Header, DataHeader, unpack_header, unpack_data_header, packet_data}
use udpfsd.Udprdma.Session.{Session, reset_session}
use udpfsd.Udprdma.AckTimer.{has_payload}
use udpfsd.Udprdma.Receive.{
  receive_control, receive_previous, receive_unexpected, accept, receive_payload, receive_data,
  receive_header, process_data_packet, is_ack, count_rx, count_unexpected,
}
use udpfsd.Udprdma.Invariant.{IsSession, reset_session-IsSession}
use udpfsd.Udprdma.Invariant.Receiving.{metrics-IsSession, seq_nr_ack-lt}
use udpfsd.Udprdma.Receive.Delivery.{
  Expects, IsData, Reception, rejected, acked, nacked, delivered, repeated, unexpected, AckTaken,
  ack_if-AckTaken, is_ack-flag, not_ack-flag, nack_if-Expects, on_peer_ack-Expects,
  send_ack-Expects, size,
}

header-lt :
    (packet : List ℕ) {t seq : ℕ}
    → unpack_header packet ≡ some (record { packet_type = t; seq_nr = seq })
    → seq < 4096
unfolding unpack_header
header-lt packet e = ground arith

module _ (packet : List ℕ) {seq : ℕ} {h : DataHeader} (s : Session) (i : IsSession s)
    (d : IsData packet seq h) where
  ack-lt : h.seq_nr_ack < 4096
  ack-lt = seq_nr_ack-lt _ d.fields

  seq-lt : seq < 4096
  seq-lt = header-lt packet d.header

  counted : Expects s.rx_seq_expected (count_rx s)
  counted = record { session = metrics-IsSession _ i; number = refl }

  control-Reception :
      size packet h ≡ 0 → Returns (Reception packet s) (receive_control h (count_rx s))
  unfolding receive_control
  control-Reception empty = elim (Bool-cases (is_ack h)) [
    | inl ack ↦
        let r = on_peer_ack-Expects h.seq_nr_ack (count_rx s) counted ack-lt in
        rw (ack, r.result) (Returns-ok _ (acked d empty (is_ack-flag h ack) r.result r.holds))
    | inr nack ↦ rw nack (
        Returns-ok _ (
          nacked d empty (not_ack-flag h nack) refl (
            nack_if-Expects true h.seq_nr_ack
              (record { session = metrics-IsSession _ counted.session; number = refl }))))
  ]

  accept-Reception :
      (u : Session)
      → IsSession u
      → size packet h ≢ 0
      → ((seq ≡ s.rx_seq_expected) × (u ≡ count_rx s))
        ⊎ ((seq ≡ 0)
            × (seq ≢ s.rx_seq_expected)
            × (s.rx_seq_expected ≢ 1)
            × (u ≡ reset_session (count_rx s)))
      → Returns (Reception packet s) (accept seq h (take (size packet h) (drop 6 packet)) u)
  unfolding accept
  accept-Reception u j filled why =
      let e : low_bits (u16 (seq + 1)) 12 ≡ (seq + 1) % 4096 = omega arith in
      rw e (
        Returns-bind {P = λ t. AckTaken h _ t × Expects ((seq + 1) % 4096) t} _ _
          (ack_if-AckTaken h _ (send_ack-Expects true moved) ack-lt)
          (λ t x. Returns-ok _ (delivered d filled why x.0 x.1)))
    where
      moved : Expects ((seq + 1) % 4096) (record u { rx_seq_expected = (seq + 1) % 4096 })
      moved = record {
        session = record { window = j.window; sendable = j.sendable; rx_in = omega arith };
        number = omega arith;
      }

  recount : Expects s.rx_seq_expected (count_unexpected (count_rx s))
  recount = record { session = metrics-IsSession _ counted.session; number = refl }

  previous-Reception :
      size packet h ≢ 0
      → (seq + 1) % 4096 ≡ s.rx_seq_expected
      → Returns (Reception packet s) (receive_previous h (count_rx s))
  unfolding receive_previous
  previous-Reception filled before =
      Returns-bind {P = λ t. AckTaken h _ t × Expects s.rx_seq_expected t} _ _
        (ack_if-AckTaken h _ (send_ack-Expects true recount) ack-lt)
        (λ t x.
          Returns-ok _
            (repeated d filled before x.0 refl (nack_if-Expects (has_payload s.transfer) _ x.1)))

  unexpected-Reception :
      size packet h ≢ 0
      → seq ≢ s.rx_seq_expected
      → (seq + 1) % 4096 ≢ s.rx_seq_expected
      → seq ≢ 0
      → Returns (Reception packet s) (receive_unexpected h (count_rx s))
  unfolding receive_unexpected
  unexpected-Reception filled other away lost =
      Returns-bind {P = λ t. AckTaken h _ t × Expects s.rx_seq_expected t} _ _
        (ack_if-AckTaken h _ (send_ack-Expects false recount) ack-lt)
        (λ t x. Returns-ok _ (unexpected d filled other away lost x.0 x.1))

  payload-Reception :
      size packet h ≢ 0
      → Returns
          (Reception packet s)
          (receive_payload seq h (take (size packet h) (drop 6 packet)) (count_rx s))
  unfolding receive_payload
  payload-Reception filled = elim (Bool-cases (seq == s.rx_seq_expected)) [
    | inl here ↦
        rw here (accept-Reception (count_rx s) counted.session filled (inl (ground arith, refl)))
    | inr other ↦ elim (Bool-cases (seq == low_bits (sub16 s.rx_seq_expected 1) 12)) [
      | inl before ↦ rw (other, before) (previous-Reception filled (ground (arith, i.rx_in)))
      | inr away ↦ elim (Bool-cases (seq == 0)) [
        | inl zero ↦
            rw (other, away, zero)
              (accept-Reception (reset_session (count_rx s))
                (reset_session-IsSession counted.session) filled
                (inr (ground arith, ground arith, ground (arith, i.rx_in), refl)))
        | inr lost ↦
            rw (other, away, lost)
              (unexpected-Reception filled (ground arith) (ground (arith, i.rx_in, seq-lt))
                (ground arith))
      ]
    ]
  ]

no_header :
    {packet : List ℕ}
    → unpack_header packet ≡ none
    → (seq : ℕ) (h : DataHeader) → ¬ IsData packet seq h
no_header e seq h d = let a = d.header in cc

data_header_found : (b : List ℕ) → 4 ≤ length b → unpack_data_header b ≢ none
unfolding unpack_data_header
data_header_found b h e = ground arith

header_of :
    (x : Header)
    → x.packet_type ≡ packet_data
    → x ≡ record { packet_type = packet_data; seq_nr = x.seq_nr }
header_of x e = cc

wrong_type :
    {packet : List ℕ} {x : Header}
    → unpack_header packet ≡ some x
    → (x.packet_type == packet_data) ≡ false
    → (seq : ℕ) (h : DataHeader) → ¬ IsData packet seq h
wrong_type e w seq h d = let a = d.header in ground arith

receive_data-Reception :
    (packet : List ℕ) (seq : ℕ) (o : Option DataHeader) (s : Session)
    → IsSession s
    → unpack_header packet ≡ some (record { packet_type = packet_data; seq_nr = seq })
    → unpack_data_header (take 4 (drop 2 packet)) ≡ o
    → o ≢ none
    → Returns (Reception packet s) (receive_data seq (drop 6 packet) o s)
unfolding receive_data
receive_data-Reception packet seq none s i e f found = absurd (found refl)
receive_data-Reception packet seq (some h) s i e f found = elim (Bool-cases (size packet h == 0)) [
  | inl empty ↦ rw empty (control-Reception packet s i d (ground arith))
  | inr filled ↦ rw filled (payload-Reception packet s i d (ground arith))
]
  where
    d : IsData packet seq h
    d = record { header = e; fields = f }

pub process_data_packet-Reception :
    (packet : List ℕ) (s : Session)
    → IsSession s
    → 6 ≤ length packet
    → Returns (Reception packet s) (process_data_packet packet s)
unfolding process_data_packet receive_header
process_data_packet-Reception packet s i long = elim (Option-cases (unpack_header packet)) [
  | inl e ↦ rw e (Returns-ok _ (rejected (no_header e)))
  | inr (x, e) ↦ elim (Bool-cases (x.packet_type == packet_data)) [
    | inr other ↦ rw (e, other) (Returns-ok _ (rejected (wrong_type e other)))
    | inl here ↦
        rw (e, here, le→ltb (length packet) 6 long)
          (receive_data-Reception packet x.seq_nr _ s i (e ∙ ap some (header_of x (ground arith)))
            refl
            (data_header_found _
              (omega (arith, length-take 4 (drop 2 packet), length-drop 2 packet))))
  ]
]
