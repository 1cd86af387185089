-- ===== src/Udprdma/Acks/Sequence.antt =====
-- udprdma/session.go and acks.go: which numbers lie in a range of the ring of 4096, and what an ACK
-- or a NACK of each number does.
use udpfsd.Common.{
  ℕ, ◌+◌, ◌-◌, ◌%◌, ◌<◌, ◌≤◌, ◌≡◌, ◌↔◌, refl, ap, ◌∙◌, arith, List, ◌++◌, map, Bool, true, false,
  min, Bool-cases, inl, inr, ◌==◌, append-nil, drop, lt_or_le, ◌⊎◌, ◌≢◌,
}
use udpfsd.Udprdma.Session.{
  Session, datagram, seq_between, in_range, is_empty, Ring, stop_ack_timer,
}
use udpfsd.Udprdma.AckTimer.{update_ack_timer}
use udpfsd.Udprdma.AckTimer.Frame.{IsTimerOf, update_ack_timer-frame}
use udpfsd.Udprdma.Transmit.{retransmit_from, retransmit_loop, prune_acked}
use udpfsd.Udprdma.Acks.{on_ack, on_peer_nack, last_sent}
use udpfsd.Udprdma.Window.{buffered, outstanding, contents}
use udpfsd.Udprdma.Window.Pack.{IsWindow}
use udpfsd.Udprdma.Window.Prune.{prune_acked_lem, prune_acked-contents}
use udpfsd.Udprdma.Window.Resend.{batch_lem}

-- `seqBetween` tells whether, counting up from `start` on the ring of 4096 numbers, `seq` is reached
-- no later than `end`.
pub seq_between_iff :
    (start seq end : ℕ)
    → start < 4096
    → seq < 4096
    → end < 4096
    → (seq_between start seq end ≡ true)
      ↔ ((seq + 4096 - start) % 4096 ≤ (end + 4096 - start) % 4096)
unfolding seq_between in_range
seq_between_iff start seq end hs hq he = (λ h. ground arith, λ h. ground arith)

not_empty :
    (r : Ring) → r.read_index < 2048 → r.write_index < 2048 → 0 < buffered r → is_empty r ≡ false
unfolding is_empty
not_empty r hr hw h = ground arith

last_sent-distance :
    (s : Session)
    → IsWindow s
    → (last_sent s + 4096 - s.tx_seq_nr_acked) % 4096 ≡ outstanding s.tx_seq_nr s.tx_seq_nr_acked
last_sent-distance s q = omega (arith, q.tx_in, q.acked_in)

-- What an ACK that counts leaves in the ring, on either way out of `onAck`
acked_part :
    (ack : ℕ) (s : Session)
    → is_empty s.ring ≡ false
    → seq_between s.tx_seq_nr_acked ack (last_sent s) ≡ true
    → ((on_ack ack s).tx_seq_nr_acked ≡ ack)
      × ((on_ack ack s).ring ≡ (prune_acked ack s).ring)
      × ((on_ack ack s).tx_seq_nr ≡ s.tx_seq_nr)
      × ((on_ack ack s).retransmit_attempts ≡ 0)
unfolding on_ack prune_acked stop_ack_timer
acked_part ack s sent fresh = elim (Bool-cases (ack == last_sent s)) [
  | inl all ↦ rw (sent, fresh, all) (refl, refl, refl, refl)
  | inr part ↦
      rw (sent, fresh, part)
        (
          ap (λ (x : Session). x.tx_seq_nr_acked) frame.same,
          ap (λ (x : Session). x.ring) frame.same,
          ap (λ (x : Session). x.tx_seq_nr) frame.same,
          ap (λ (x : Session). x.retransmit_attempts) frame.same,
        )
]
  where
    pruned : Session
    pruned = record (prune_acked ack (record s { tx_seq_nr_acked = ack })) {
      retransmit_attempts = 0;
    }

    frame : IsTimerOf pruned (update_ack_timer pruned)
    frame = update_ack_timer-frame pruned

-- What `on_ack` does with an ACK of one of the outstanding numbers or of the last acknowledged one
pub record Acked (ack : ℕ) (s t : Session) : Type 0 where
  pub number : t.tx_seq_nr_acked ≡ ack
  pub kept : buffered t.ring ≡ min (buffered s.ring) (outstanding s.tx_seq_nr ack)
  pub left :
      contents t.ring.slots t.ring.read_index (buffered t.ring)
      ≡ drop
          (buffered s.ring - outstanding s.tx_seq_nr ack)
          (contents s.ring.slots s.ring.read_index (buffered s.ring))
  pub attempts : t.retransmit_attempts ≡ 0

-- In a session whose ring is a queue, while packets are buffered and fewer than 2048 numbers are
-- outstanding: an ACK of the number acknowledged last or of one sent after it becomes the one
-- acknowledged last, leaves in the buffer, as they were, just the packets after it, and starts the
-- retransmissions anew; any other ACK changes nothing.
pub on_ack_lem :
    (ack : ℕ) (s : Session)
    → IsWindow s
    → ack < 4096
    → 0 < buffered s.ring
    → outstanding s.tx_seq_nr s.tx_seq_nr_acked < 2048
    → let ahead = (ack + 4096 - s.tx_seq_nr_acked) % 4096 in
      let sent = outstanding s.tx_seq_nr s.tx_seq_nr_acked in
      ((ahead ≤ sent) × Acked ack s (on_ack ack s)) ⊎ ((sent < ahead) × (on_ack ack s ≡ s))
unfolding on_ack
on_ack_lem ack s q h some_sent small =
    elim (Bool-cases (seq_between s.tx_seq_nr_acked ack (last_sent s))) [
      | inl fresh ↦
          let part = acked_part ack s sent fresh in
          let near : (ack + 4096 - s.tx_seq_nr_acked) % 4096
              ≤ outstanding s.tx_seq_nr s.tx_seq_nr_acked =
            omega (arith, iff.0 fresh, last_sent-distance s q) in
          let few : outstanding s.tx_seq_nr ack < 2048 = omega (arith, q.tx_in, q.acked_in) in
          inl (
            near,
            record {
              number = part.0;
              kept = ap buffered part.1 ∙ (prune_acked_lem ack s q h).1 few;
              left =
                  ap (λ (r : Ring). contents r.slots r.read_index (buffered r)) part.1
                  ∙ prune_acked-contents ack s q h few;
              attempts = part.3;
            },
          )
      | inr stale ↦ inr (
        elim (lt_or_le (outstanding s.tx_seq_nr s.tx_seq_nr_acked)
            ((ack + 4096 - s.tx_seq_nr_acked) % 4096)) [
              | inl lt ↦ lt
              | inr le ↦ absurd (not_fresh stale (iff.1 (omega (arith, last_sent-distance s q))))
            ],
        rw (sent, stale),
      )
    ]
  where
    sent : is_empty s.ring ≡ false
    sent = not_empty s.ring q.read_in q.write_in some_sent

    iff : (seq_between s.tx_seq_nr_acked ack (last_sent s) ≡ true) ↔ (
        (ack + 4096 - s.tx_seq_nr_acked) % 4096 ≤ (last_sent s + 4096 - s.tx_seq_nr_acked) % 4096)
    iff = seq_between_iff s.tx_seq_nr_acked ack (last_sent s) q.acked_in h (omega arith)

    not_fresh : {b : Bool} → b ≡ false → b ≢ true
    not_fresh e f = cc

trace-on_peer_nack :
    (from : ℕ) (s : Session)
    → (on_peer_nack from s).trace
      ≡ s.trace
        ++ map datagram
            (retransmit_loop 2048 s.ring.slots s.ring.write_index from s.ring.read_index)
unfolding on_peer_nack retransmit_from
trace-on_peer_nack from s = ap (λ (x : Session). x.trace) (update_ack_timer-frame _).same

-- In a session whose ring is a queue: a NACK of the oldest packet in the buffer, or of a number up
-- to 2000 before it, sends every packet of the buffer again, in order.
pub on_peer_nack-oldest :
    (from : ℕ) (s : Session)
    → IsWindow s
    → from < 4096
    → ((s.tx_seq_nr + 4096 - buffered s.ring) % 4096 + 4096 - from) % 4096 ≤ 2000
    → (on_peer_nack from s).trace
      ≡ s.trace ++ map datagram (contents s.ring.slots s.ring.read_index (buffered s.ring))
on_peer_nack-oldest from s q h near =
    let b = batch_lem from s.ring s.tx_seq_nr s.tx_seq_nr_acked q h in
    trace-on_peer_nack from s
    ∙ ap (λ (x : List (List ℕ)). s.trace ++ map datagram x) (b.0 (omega (arith, q.few, q.tx_in)))

-- In a session whose ring is a queue: a NACK of a number up to 2048 after the oldest one in the
-- buffer sends nothing, also where it is the number of a packet that is in the buffer.
pub on_peer_nack-later :
    (from : ℕ) (s : Session)
    → IsWindow s
    → from < 4096
    → let oldest = (s.tx_seq_nr + 4096 - buffered s.ring) % 4096 in
      0 < (from + 4096 - oldest) % 4096
      → (from + 4096 - oldest) % 4096 ≤ 2048
      → (on_peer_nack from s).trace ≡ s.trace
on_peer_nack-later from s q h after near =
    let b = batch_lem from s.ring s.tx_seq_nr s.tx_seq_nr_acked q h in
    trace-on_peer_nack from s
    ∙ ap (λ (x : List (List ℕ)). s.trace ++ map datagram x) (b.1 (omega (arith, q.few, q.tx_in)))
    ∙ append-nil s.trace
