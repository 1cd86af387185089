-- ===== src/Udprdma/Timeout.antt =====
-- udprdma/ack_timer.go and handleACKTimeout of session_tx.go: what the timer does to a session whose
-- peer is silent.
pub mod Silence
use udpfsd.Common.{
  ℕ, zero, suc, ◌+◌, ◌<◌, ◌≤◌, ◌≡◌, ◌⊎◌, inl, inr, refl, sym, ap, ◌∙◌, arith, List, [], ◌∷◌, ◌++◌,
  map, Bool, true, false, none, some, if◌then◌else◌, ◌==◌, not, ◌&&◌, ◌||◌, ltb, leb, length,
  Bool-cases, append_assoc, low_bits, u16, lt→ltb, le→ltb, subst,
}
use udpfsd.Udprdma.Protocol.{max_retransmits}
use udpfsd.Udprdma.Session.{
  Ring, AckWaitMode, wait_none, wait_window, wait_fin, Session, Event, datagram, stop_ack_timer,
  clear_transfer, in_flight,
}
use udpfsd.Udprdma.AckTimer.{same_mode, arm_ack_timer, arm, window_full, has_payload}
use udpfsd.Udprdma.AckTimer.Frame.{IsTimerOf, arm_ack_timer-frame}
use udpfsd.Udprdma.Transmit.{
  ack_timer_func, handle_ack_timeout, retransmit_from, retransmit_loop, write_batch,
  count_retransmits, first_unacked,
}

-- The timer runs, and the session waits for the peer: for the ACK of the last packet, or for room.
pub record IsWaiting (s : Session) : Type 0 where
  pub not_closed : s.closed ≡ false
  pub waits : same_mode s.timer.wait_mode wait_none ≡ false
  pub current : s.timer.expect_seq ≡ s.timer.timer_seq
  pub reason : (s.fin_pending ≡ true) ⊎ (window_full s ≡ true)

-- What a timeout sends again
abbrev pub resent : Session → List Event
resent s =
    map datagram
      (retransmit_loop 2048 s.ring.slots s.ring.write_index (first_unacked s) s.ring.read_index)

-- One timeout that does not give up
pub record Again (s t : Session) : Type 0 where
  pub waiting : IsWaiting t
  pub attempts : t.retransmit_attempts ≡ s.retransmit_attempts + 1
  pub trace : t.trace ≡ s.trace ++ resent s
  pub ring : t.ring ≡ s.ring
  pub acked : t.tx_seq_nr_acked ≡ s.tx_seq_nr_acked
  pub fin : t.fin_pending ≡ s.fin_pending

arm_ack_timer-runs :
    (s : Session)
    → s.timer.wait_mode ≡ wait_none
    → (same_mode (arm_ack_timer s).timer.wait_mode wait_none ≡ false)
      × ((arm_ack_timer s).timer.expect_seq ≡ (arm_ack_timer s).timer.timer_seq)
unfolding arm_ack_timer arm same_mode
arm_ack_timer-runs s e = elim (Bool-cases s.fin_pending) [
  | inl fin ↦ rw (fin, e) (refl, refl)
  | inr window ↦ rw (window, e) (refl, refl)
]

-- The state in which `handleACKTimeout` has sent the packets again
pub resend : Session → Session
resend s =
    let s1 = record s {
      timer = record s.timer { wait_mode = wait_none };
      retransmit_attempts = s.retransmit_attempts + 1;
    } in
    (retransmit_from (first_unacked s1) s1).1

-- What it does then
pub conclude : Bool → Session → Session
conclude fin t =
    if ltb t.retransmit_attempts max_retransmits
    then arm_ack_timer t
    else let u = if fin then record t { fin_pending = false } else clear_transfer t in
      record (stop_ack_timer u) { retransmit_attempts = 0 }

handle_ack_timeout-conclude :
    (s : Session)
    → (s.fin_pending ≡ true) ⊎ (window_full s ≡ true)
    → handle_ack_timeout (record s { timer = record s.timer { wait_mode = wait_none } })
      ≡ conclude s.fin_pending (resend s)
unfolding handle_ack_timeout conclude resend window_full in_flight
handle_ack_timeout-conclude s (inl fin) = rw fin
handle_ack_timeout-conclude s (inr window) = elim (Bool-cases s.fin_pending) [
  | inl fin ↦ rw fin
  | inr none_pending ↦ rw (none_pending, window)
]

if_false : {b : Bool} (t u : Session) → b ≡ false → (if b then t else u) ≡ u
if_false t u e = rw e

pub if_true : {b : Bool} (t u : Session) → b ≡ true → (if b then t else u) ≡ t
if_true t u e = rw e

pub fires :
    (s : Session)
    → IsWaiting s
    → (s.closed
        || same_mode s.timer.wait_mode wait_none
        || not (s.timer.expect_seq == s.timer.timer_seq))
      ≡ false
fires s w = ground (arith, w.not_closed, w.waits, w.current)

pub ack_timer_func-conclude :
    (s : Session) → IsWaiting s → ack_timer_func s ≡ conclude s.fin_pending (resend s)
unfolding ack_timer_func
ack_timer_func-conclude s w = if_false _ _ (fires s w) ∙ handle_ack_timeout-conclude s w.reason

record Resent (s t : Session) : Type 0 where
  attempts : t.retransmit_attempts ≡ s.retransmit_attempts + 1
  trace : t.trace ≡ s.trace ++ resent s
  ring : t.ring ≡ s.ring
  acked : t.tx_seq_nr_acked ≡ s.tx_seq_nr_acked
  closed : t.closed ≡ s.closed
  mode : t.timer.wait_mode ≡ wait_none
  fin : t.fin_pending ≡ s.fin_pending
  window : window_full t ≡ window_full s

resend-lem : (s : Session) → Resent s (resend s)
unfolding resend retransmit_from window_full in_flight
resend-lem s = record {
  attempts = refl;
  trace = refl;
  ring = refl;
  acked = refl;
  closed = refl;
  mode = refl;
  fin = refl;
  window = refl;
}

window_full-timer : {s t : Session} → IsTimerOf s t → window_full t ≡ window_full s
unfolding window_full in_flight
window_full-timer f = rw f.same

still_reason :
    (s : Session) {t : Session}
    → IsTimerOf (resend s) t
    → (s.fin_pending ≡ true) ⊎ (window_full s ≡ true)
    → (t.fin_pending ≡ true) ⊎ (window_full t ≡ true)
still_reason s f (inl fin) =
    inl (ap (λ (x : Session). x.fin_pending) f.same ∙ (resend-lem s).fin ∙ fin)
still_reason s f (inr window) = inr (window_full-timer f ∙ (resend-lem s).window ∙ window)

-- A timeout before the last one arms the timer again.
pub Again-conclude :
    (s : Session)
    → IsWaiting s
    → s.retransmit_attempts < 3
    → Again s (conclude s.fin_pending (resend s))
unfolding conclude
Again-conclude s w few = subst (λ t. Again s t) (sym (if_true _ _ early)) again
  where
    early : ltb (resend s).retransmit_attempts max_retransmits ≡ true
    early = lt→ltb _ _ (omega (arith, (resend-lem s).attempts))

    frame : IsTimerOf (resend s) (arm_ack_timer (resend s))
    frame = arm_ack_timer-frame (resend s)

    again : Again s (arm_ack_timer (resend s))
    again = record {
      waiting = record {
        not_closed =
            ap (λ (x : Session). x.closed) frame.same ∙ (resend-lem s).closed ∙ w.not_closed;
        waits = (arm_ack_timer-runs (resend s) (resend-lem s).mode).0;
        current = (arm_ack_timer-runs (resend s) (resend-lem s).mode).1;
        reason = still_reason s frame w.reason;
      };
      attempts = ap (λ (x : Session). x.retransmit_attempts) frame.same ∙ (resend-lem s).attempts;
      trace = ap (λ (x : Session). x.trace) frame.same ∙ (resend-lem s).trace;
      ring = ap (λ (x : Session). x.ring) frame.same ∙ (resend-lem s).ring;
      acked = ap (λ (x : Session). x.tx_seq_nr_acked) frame.same ∙ (resend-lem s).acked;
      fin = ap (λ (x : Session). x.fin_pending) frame.same ∙ (resend-lem s).fin;
    }

-- The last timeout: the packets are sent once more and the session gives up.
pub record GivesUp (s t : Session) : Type 0 where
  pub stopped : t.timer.running ≡ none
  pub mode : t.timer.wait_mode ≡ wait_none
  pub attempts : t.retransmit_attempts ≡ 0
  pub nothing_awaited :
      (t.fin_pending ≡ false) × ((s.fin_pending ≡ true) ⊎ (has_payload t.transfer ≡ false))

pub record GivesUpNow (s t : Session) : Type 0 where
  pub gives_up : GivesUp s t
  pub trace : t.trace ≡ s.trace ++ resent s

pub GivesUpNow-conclude :
    (s : Session)
    → IsWaiting s
    → 3 ≤ s.retransmit_attempts
    → GivesUpNow s (conclude s.fin_pending (resend s))
unfolding conclude clear_transfer stop_ack_timer has_payload
GivesUpNow-conclude s w many =
    subst (λ t. GivesUpNow s t) (sym (if_false _ _ late))
      (elim (Bool-cases s.fin_pending) [
        | inl fin ↦
            subst (λ b. GivesUpNow s (stopped b)) (sym fin)
              (record {
                gives_up = record {
                  stopped = refl;
                  mode = refl;
                  attempts = refl;
                  nothing_awaited = (refl, inl fin);
                };
                trace = (resend-lem s).trace;
              })
        | inr window ↦
            subst (λ b. GivesUpNow s (stopped b)) (sym window)
              (record {
                gives_up = record {
                  stopped = refl;
                  mode = refl;
                  attempts = refl;
                  nothing_awaited = ((resend-lem s).fin ∙ window, inr refl);
                };
                trace = (resend-lem s).trace;
              })
      ])
  where
    late : ltb (resend s).retransmit_attempts max_retransmits ≡ false
    late = le→ltb _ _ (omega (arith, (resend-lem s).attempts))

    stopped : Bool → Session
    stopped fin =
        let u =
          if fin then record (resend s) { fin_pending = false } else clear_transfer (resend s) in
        record (stop_ack_timer u) { retransmit_attempts = 0 }
