-- ===== src/Udprdma/Invariant/Life.antt =====
-- Every history of a session of udprdma/: packets, timer calls and sends in any order.
use udpfsd.Common.{
  ℕ, ◌+◌, ◌≤◌, ◌<◌, List, [], ◌∷◌, Bool, true, false, if◌then◌else◌, Outcome, ok, ◌>>=◌, length,
  Returns, Returns-ok, Returns-bind,
}
use udpfsd.Udprdma.Session.{Session, new_session, close, set_reset_callback}
use udpfsd.Udprdma.AckTimer.Frame.{stop_ack_timer-frame, arm_ack_timer-frame}
use udpfsd.Udprdma.Transmit.{
  send_data, send_raw_data_with_header, send_ack, ack_timer_func, handle_ack_timeout,
  retransmit_from, first_unacked,
}
use udpfsd.Udprdma.Window.{buffered}
use udpfsd.Udprdma.Receive.{Received, process_data_packet}
use udpfsd.Udprdma.Invariant.{
  IsSession, new_session-IsSession, timer-IsSession, clear_transfer-IsSession, send_data-IsSession,
  send_raw_data_with_header-IsSession,
}
use udpfsd.Udprdma.Invariant.Receiving.{
  process_data_packet-IsSession, send_ack-IsSession, attempts-IsSession, fin_pending-IsSession,
  retransmit_from-IsSession,
}

if-IsSession :
    (b : Bool) (s t : Session) → IsSession s → IsSession t → IsSession (if b then s else t)
if-IsSession true s t i j = i
if-IsSession false s t i j = j

handle_ack_timeout-IsSession : (s : Session) → IsSession s → IsSession (handle_ack_timeout s)
unfolding handle_ack_timeout
handle_ack_timeout-IsSession s i = if-IsSession _ _ _ (timer-IsSession (stop_ack_timer-frame s) i) (
    if-IsSession _ _ _ (timer-IsSession (arm_ack_timer-frame _) resent) (
      attempts-IsSession 0 (
        timer-IsSession (stop_ack_timer-frame _) (
          if-IsSession s.fin_pending _ _ (fin_pending-IsSession false resent)
            (clear_transfer-IsSession resent)))))
  where
    counted : Session
    counted = record s { retransmit_attempts = s.retransmit_attempts + 1 }

    resent : IsSession (retransmit_from (first_unacked counted) counted).1
    resent =
        retransmit_from-IsSession (first_unacked counted) counted
          (attempts-IsSession (s.retransmit_attempts + 1) i)

pub ack_timer_func-IsSession : (s : Session) → IsSession s → IsSession (ack_timer_func s)
unfolding ack_timer_func
ack_timer_func-IsSession s i = if-IsSession _ _ _ i (
    handle_ack_timeout-IsSession _
      (record { window = i.window; sendable = i.sendable; rx_in = i.rx_in }))

pub close-IsSession : (s : Session) → IsSession s → IsSession (close s)
unfolding close
close-IsSession s i = if-IsSession _ _ _ i (
    timer-IsSession (stop_ack_timer-frame _)
      (record { window = i.window; sendable = i.sendable; rx_in = i.rx_in }))

pub set_reset_callback-IsSession : (s : Session) → IsSession s → IsSession (set_reset_callback s)
unfolding set_reset_callback
set_reset_callback-IsSession s i = record {
  window = i.window;
  sendable = i.sendable;
  rx_in = i.rx_in;
}

-- What can happen to a session, between one lock and unlock and the next
pub data Op : Type 0 where
  receive : List ℕ → Op
  timer_fires : Op
  send : List ℕ → Op
  send_with_header : List ℕ → List ℕ → Op
  send_control : Bool → Op
  close_session : Op
  set_callback : Op

-- What the callers see to: the data handler drops shorter packets, and replies are short.
abbrev pub IsAllowed : Op → Type 0
IsAllowed (receive packet) = 6 ≤ length packet
IsAllowed (send bytes) = length bytes ≤ 1492
IsAllowed (send_with_header header bytes) = length header < 1408
IsAllowed _ = Unit

abbrev drop_result : Outcome (Received × Session) → Outcome Session
drop_result o = o >>= λ (r, s). ok s

unfoldable pub step : Op → Session → Outcome Session
step (receive packet) s = drop_result (process_data_packet packet s)
step timer_fires s = ok (ack_timer_func s)
step (send bytes) s = send_data bytes s
step (send_with_header header bytes) s = send_raw_data_with_header header bytes s
step (send_control ack) s = ok (send_ack ack s)
step close_session s = ok (close s)
step set_callback s = ok (set_reset_callback s)

step-IsSession :
    (op : Op) (s : Session) → IsAllowed op → IsSession s → Returns IsSession (step op s)
unfolding step
step-IsSession (receive packet) s a i =
    Returns-bind {P = λ r. IsSession r.1} _ _ (process_data_packet-IsSession packet s i a)
      (λ (r, t) j. Returns-ok t j)
step-IsSession timer_fires s a i = Returns-ok _ (ack_timer_func-IsSession s i)
step-IsSession (send bytes) s a i = send_data-IsSession bytes s i a
step-IsSession (send_with_header header bytes) s a i =
    send_raw_data_with_header-IsSession header bytes s i a
step-IsSession (send_control ack) s a i = Returns-ok _ (send_ack-IsSession ack s i)
step-IsSession close_session s a i = Returns-ok _ (close-IsSession s i)
step-IsSession set_callback s a i = Returns-ok _ (set_reset_callback-IsSession s i)

unfoldable pub run : List Op → Session → Outcome Session
run [] s = ok s
run (op ∷ ops) s = step op s >>= run ops

abbrev pub AllAllowed : List Op → Type 0
AllAllowed [] = Unit
AllAllowed (op ∷ ops) = IsAllowed op × AllAllowed ops

run-IsSession :
    (ops : List Op) (s : Session) → AllAllowed ops → IsSession s → Returns IsSession (run ops s)
unfolding run
run-IsSession [] s a i = Returns-ok s i
run-IsSession (op ∷ ops) s a i =
    Returns-bind {P = IsSession} _ _ (step-IsSession op s a.0 i) (λ t j. run-IsSession ops t a.1 j)

-- Whatever packets of at least six bytes arrive, whenever the timer fires, and whatever replies of at
-- most 1492 bytes (or with a header of less than 1408) are sent, in any order and number, a new
-- session never panics and keeps its invariant. In it at most nine packets are buffered.
pub run_safe :
    (ops : List Op)
    → AllAllowed ops
    → Returns (λ s. IsSession s × (buffered s.ring ≤ 9)) (run ops new_session)
run_safe ops a =
    let r = run-IsSession ops new_session a new_session-IsSession in
    record { value = r.value; result = r.result; holds = (r.holds, r.holds.window.few) }
