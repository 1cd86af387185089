-- ===== src/Udprdma/AckTimer/Frame.antt =====
-- udprdma/ack_timer.go: the timer's operations change the timer alone.
use udpfsd.Common.{◌≡◌, refl, arith}
use udpfsd.Udprdma.Session.{Session, stop_ack_timer}
use udpfsd.Udprdma.AckTimer.{arm_ack_timer, update_ack_timer, arm}

-- `t` is `s` but for its timer.
pub record IsTimerOf (s t : Session) : Type 0 where
  pub same : t ≡ record s { timer = t.timer }

pub stop_ack_timer-frame : (s : Session) → IsTimerOf s (stop_ack_timer s)
unfolding stop_ack_timer
stop_ack_timer-frame s = record { same = refl }

pub arm_ack_timer-frame : (s : Session) → IsTimerOf s (arm_ack_timer s)
unfolding arm_ack_timer arm
arm_ack_timer-frame s = record { same = ground arith }

pub update_ack_timer-frame : (s : Session) → IsTimerOf s (update_ack_timer s)
unfolding update_ack_timer arm_ack_timer arm stop_ack_timer
update_ack_timer-frame s = record { same = ground arith }
