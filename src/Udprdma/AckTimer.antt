-- ===== src/Udprdma/AckTimer.antt =====
-- udprdma/ack_timer.go: arming and stopping the ACK timer.
pub mod Frame
use udpfsd.Common.{ℕ, ◌+◌, Bool, true, false, none, some, leb, ◌==◌, ◌&&◌, ◌||◌, if◌then◌else◌, u16}
use udpfsd.Udprdma.Protocol.{send_window, fin_ack_timeout, window_ack_timeout}
use udpfsd.Udprdma.Session.{
  AckWaitMode, wait_none, wait_window, wait_fin, Session, Transfer, in_flight, stop_ack_timer,
}

unfoldable pub same_mode : AckWaitMode → AckWaitMode → Bool
same_mode wait_none wait_none = true
same_mode wait_window wait_window = true
same_mode wait_fin wait_fin = true
same_mode _ _ = false

-- Stop, then Reset: `running` is what the timer was last reset to.
unfoldable pub arm : AckWaitMode → ℕ → Session → Session
arm mode d s =
    if same_mode s.timer.wait_mode mode
    then s
    else let n = u16 (s.timer.timer_seq + 1) in
      record s {
        timer = record { running = some d; expect_seq = n; timer_seq = n; wait_mode = mode };
      }

unfoldable pub arm_ack_timer : Session → Session
arm_ack_timer s =
    if s.fin_pending then arm wait_fin fin_ack_timeout s else arm wait_window window_ack_timeout s

unfoldable pub has_payload : Transfer → Bool
has_payload t = elim t.payload [ none ↦ false | some _ ↦ true ]

unfoldable pub window_full : Session → Bool
window_full s = has_payload s.transfer && leb send_window (in_flight s)

unfoldable pub update_ack_timer : Session → Session
update_ack_timer s =
    if in_flight s == 0
    then stop_ack_timer s
    else if s.fin_pending || window_full s
    then arm_ack_timer s
    else stop_ack_timer s
