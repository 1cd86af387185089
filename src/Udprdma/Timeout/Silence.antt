-- ===== src/Udprdma/Timeout/Silence.antt =====
-- udprdma/ack_timer.go: the timeouts of a session whose peer is silent.
use udpfsd.Common.{
  ℕ, zero, suc, ◌+◌, ◌<◌, ◌≤◌, ◌≡◌, ◌⊎◌, inl, inr, refl, sym, ap, ◌∙◌, arith, List, ◌++◌, map, Bool,
  true, false, ◌||◌, append_assoc, low_bits, u16, subst,
}
use udpfsd.Udprdma.Session.{Ring, wait_none, Session, Event, datagram}
use udpfsd.Udprdma.AckTimer.{same_mode}
use udpfsd.Udprdma.Transmit.{ack_timer_func, retransmit_loop, first_unacked}
use udpfsd.Udprdma.Window.{buffered, outstanding, contents}
use udpfsd.Udprdma.Window.Pack.{IsWindow}
use udpfsd.Udprdma.Window.Resend.{batch_lem}
use udpfsd.Udprdma.Timeout.{
  Again, Again-conclude, GivesUp, GivesUpNow, GivesUpNow-conclude, IsWaiting,
  ack_timer_func-conclude, if_true, resent,
}

-- The timer fires `n` times, and no packet comes in between.
unfoldable pub fire : ℕ → Session → Session
fire zero s = s
fire (suc n) s = fire n (ack_timer_func s)

ack_timer_func-Again :
    (s : Session) → IsWaiting s → s.retransmit_attempts < 3 → Again s (ack_timer_func s)
ack_timer_func-Again s w few =
    subst (λ t. Again s t) (sym (ack_timer_func-conclude s w)) (Again-conclude s w few)

ack_timer_func-GivesUpNow :
    (s : Session) → IsWaiting s → 3 ≤ s.retransmit_attempts → GivesUpNow s (ack_timer_func s)
ack_timer_func-GivesUpNow s w many =
    subst (λ t. GivesUpNow s t) (sym (ack_timer_func-conclude s w)) (GivesUpNow-conclude s w many)

resent-Again : {s t : Session} → Again s t → resent t ≡ resent s
resent-Again {s} {t} g =
    ap
      (λ (r : Ring).
        map datagram (retransmit_loop 2048 r.slots r.write_index (first_unacked t) r.read_index))
      g.ring
    ∙ ap
        (λ k. map datagram (
          retransmit_loop 2048 s.ring.slots s.ring.write_index (low_bits (u16 (k + 1)) 12)
            s.ring.read_index))
        g.acked

ack_timer_func-idle : (s : Session) → s.timer.wait_mode ≡ wait_none → ack_timer_func s ≡ s
unfolding ack_timer_func same_mode
ack_timer_func-idle s e = if_true _ _ (idle s.closed _ (ap (λ m. same_mode m wait_none) e))
  where
    idle : (b c : Bool) {m : Bool} → m ≡ true → (b || m || c) ≡ true
    idle true c h = refl
    idle false c h = rw h

extend : {t u v r q : List Event} → t ≡ u → v ≡ t ++ q → q ≡ r → v ≡ u ++ r
extend e f g = rw (f, e, g)

still_true : {a b c : Bool} → b ≡ a → (b ≡ true) ⊎ (c ≡ false) → (a ≡ true) ⊎ (c ≡ false)
still_true e (inl h) = inl (sym e ∙ h)
still_true e (inr h) = inr h

-- The packets in the buffer, as datagrams
abbrev pub all_buffered : Session → List Event
all_buffered s = map datagram (contents s.ring.slots s.ring.read_index (buffered s.ring))

resent-all_buffered :
    (s : Session)
    → IsWindow s
    → buffered s.ring ≤ outstanding s.tx_seq_nr s.tx_seq_nr_acked
    → outstanding s.tx_seq_nr s.tx_seq_nr_acked ≤ 2048
    → resent s ≡ all_buffered s
resent-all_buffered s q within near =
    let from = first_unacked s in
    let b = batch_lem from s.ring s.tx_seq_nr s.tx_seq_nr_acked q (omega arith) in
    ap (λ (x : List (List ℕ)). map datagram x) (b.0 (omega (arith, q.few, q.tx_in, q.acked_in)))

-- What a session has done after four timeouts in a row
pub record IsSilent (s t : Session) : Type 0 where
  pub gives_up : GivesUp s t
  pub trace :
      t.trace
      ≡ s.trace ++ (all_buffered s ++ (all_buffered s ++ (all_buffered s ++ all_buffered s)))
  pub rests : ack_timer_func t ≡ t

-- A session that waits, whose ring is a queue of unacknowledged packets, with at most 2048 numbers
-- outstanding, and whose peer stays silent sends all the packets of its buffer again, in order, at each
-- of four timeouts, and then gives up: the timer is stopped, the wait for the last ACK or the transfer is
-- given up, and a further call of the timer's function does nothing.
pub fire-IsSilent :
    (s : Session)
    → IsWaiting s
    → s.retransmit_attempts ≡ 0
    → IsWindow s
    → buffered s.ring ≤ outstanding s.tx_seq_nr s.tx_seq_nr_acked
    → outstanding s.tx_seq_nr s.tx_seq_nr_acked ≤ 2048
    → IsSilent s (fire 4 s)
unfolding fire
fire-IsSilent s w zero_attempts q within near =
    let a = ack_timer_func-Again s w (omega arith) in
    let b = ack_timer_func-Again _ a.waiting (omega (arith, a.attempts)) in
    let c = ack_timer_func-Again _ b.waiting (omega (arith, a.attempts, b.attempts)) in
    let d =
      ack_timer_func-GivesUpNow _ c.waiting (omega (arith, a.attempts, b.attempts, c.attempts)) in
    let again_b = resent-Again a in
    let again_c = resent-Again b ∙ again_b in
    let again_d = resent-Again c ∙ again_c in
    record {
      gives_up = record {
        stopped = d.gives_up.stopped;
        mode = d.gives_up.mode;
        attempts = d.gives_up.attempts;
        nothing_awaited = (
          d.gives_up.nothing_awaited.0,
          still_true (c.fin ∙ b.fin ∙ a.fin) d.gives_up.nothing_awaited.1,
        );
      };
      trace =
          extend (extend (extend a.trace b.trace again_b) c.trace again_c) d.trace again_d
          ∙ rw (resent-all_buffered s q within near) (simp append_assoc);
      rests = ack_timer_func-idle _ d.gives_up.mode;
    }
