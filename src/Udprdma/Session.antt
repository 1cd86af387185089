-- ===== src/Udprdma/Session.antt =====
-- udprdma/session.go and udprdma/metrics.go: the state of a session and the operations on it alone.
-- What a session does to the outside (datagrams given to `writeTo` and `writeBatch`, calls of the
-- reset callback) is the trace `trace`, oldest first. The lock is held over every operation, so an
-- operation is a function of the state. `packetBuf` is a scratch buffer whose contents do not outlive
-- a call, and `peerAddr`, `creationTime` do not change.
use udpfsd.Common.{
  ℕ, ◌+◌, ◌-◌, ◌%◌, ◌^◌, Bool, true, false, Option, none, List, [], ◌∷◌, ◌++◌, leb, ◌==◌, ◌&&◌,
  ◌||◌, if◌then◌else◌, u16, u64, low_bits, sub16,
}

-- ackWaitMode
pub data AckWaitMode : Type 0 where
  wait_none wait_window wait_fin : AckWaitMode

pub data Event : Type 0 where
  datagram : List ℕ → Event
  reset_callback : Event

pub record TxPacket : Type 0 where
  pub bytes : List ℕ
  pub seq : ℕ

-- The transmit ring buffer: `txBuffer`, `txWriteIndex` and `txReadIndex`
pub record Ring : Type 0 where
  pub slots : ℕ → TxPacket
  pub write_index : ℕ
  pub read_index : ℕ

-- The header's only test is on its length, so a nil header is the empty list. A nil `data` is `none`.
-- `offset` is an int: its value -1 after a clear is the bit pattern `no_offset`.
pub record Transfer : Type 0 where
  pub header : List ℕ
  pub payload : Option (List ℕ)
  pub offset : ℕ
  pub max_chunk : ℕ

pub record Metrics : Type 0 where
  pub packets_tx : ℕ
  pub packets_rx : ℕ
  pub retransmits : ℕ
  pub nacks : ℕ
  pub unexpected_seq_nrs : ℕ
  pub peer_nacks : ℕ
  pub peer_resets : ℕ

-- `ackTimer` with the milliseconds that it was last set to, while it runs; and its bookkeeping
pub record Timer : Type 0 where
  pub running : Option ℕ
  pub expect_seq : ℕ
  pub timer_seq : ℕ
  pub wait_mode : AckWaitMode

pub record Session : Type 0 where
  pub ring : Ring
  pub transfer : Transfer
  pub metrics : Metrics
  pub tx_seq_nr : ℕ
  pub tx_seq_nr_acked : ℕ
  pub rx_seq_expected : ℕ
  pub timer : Timer
  pub retransmit_attempts : ℕ
  pub fin_pending : Bool
  pub closed : Bool
  pub has_callback : Bool
  pub trace : List Event

-- `len(s.txBuffer)` and the capacity of each slot
abbrev pub ring_size : ℕ
ring_size = 2048

abbrev pub slot_size : ℕ
slot_size = 1500

abbrev pub no_offset : ℕ
no_offset = 2 ^ 64 - 1

-- `n++` on an uint64 counter
abbrev pub count_up : ℕ → ℕ
count_up n = u64 (n + 1)

-- (i + 1) % len(s.txBuffer)
abbrev pub next_index : ℕ → ℕ
next_index i = (i + 1) % ring_size

abbrev pub no_metrics : Metrics
no_metrics = record {
  packets_tx = 0;
  packets_rx = 0;
  retransmits = 0;
  nacks = 0;
  unexpected_seq_nrs = 0;
  peer_nacks = 0;
  peer_resets = 0;
}

unfoldable pub new_session : Session
new_session = record {
  ring = record { slots = λ _. record { bytes = []; seq = 0 }; write_index = 0; read_index = 0 };
  transfer = record { header = []; payload = none; offset = 0; max_chunk = 0 };
  metrics = no_metrics;
  tx_seq_nr = 0;
  tx_seq_nr_acked = 0xFFF;
  rx_seq_expected = 0;
  timer = record { running = none; expect_seq = 0; timer_seq = 0; wait_mode = wait_none };
  retransmit_attempts = 0;
  fin_pending = false;
  closed = false;
  has_callback = false;
  trace = [];
}

unfoldable pub is_empty : Ring → Bool
is_empty r = r.read_index == r.write_index

unfoldable pub in_flight : Session → ℕ
in_flight s =
    if is_empty s.ring then 0 else low_bits (sub16 (sub16 s.tx_seq_nr s.tx_seq_nr_acked) 1) 12

unfoldable pub in_range : ℕ → ℕ → ℕ → Bool
in_range start seq end =
    if leb start end then leb start seq && leb seq end else (leb start seq || leb seq end)

unfoldable pub seq_between : ℕ → ℕ → ℕ → Bool
seq_between start seq end = in_range (low_bits start 12) (low_bits seq 12) (low_bits end 12)

unfoldable pub clear_transfer : Session → Session
clear_transfer s = record s {
  transfer = record s.transfer { header = []; payload = none; offset = no_offset };
}

abbrev pub emit : List Event → Session → Session
emit es s = record s { trace = s.trace ++ es }

-- stopAckTimer. The timer of a session that `new_session` made is never nil.
unfoldable pub stop_ack_timer : Session → Session
stop_ack_timer s = record s {
  timer = record s.timer {
    running = none;
    timer_seq = u16 (s.timer.timer_seq + 1);
    wait_mode = wait_none;
  };
}

-- The callback itself is its caller's: that one is set is all that the session keeps.
unfoldable pub set_reset_callback : Session → Session
set_reset_callback s = record s { has_callback = true }

unfoldable pub reset_session : Session → Session
reset_session s =
    let s1 = record s {
      tx_seq_nr = 0;
      tx_seq_nr_acked = 0xFFF;
      ring = record s.ring { read_index = 0; write_index = 0 };
      rx_seq_expected = 0;
    } in
    let s2 = stop_ack_timer s1 in
    let s3 = record s2 {
      retransmit_attempts = 0;
      fin_pending = false;
      metrics = record s2.metrics { peer_resets = count_up s2.metrics.peer_resets };
    } in
    let s4 = clear_transfer s3 in if s4.has_callback then emit (reset_callback ∷ []) s4 else s4

unfoldable pub reset_send_state : Session → Session
reset_send_state s =
    let s1 =
      stop_ack_timer (record s { ring = record s.ring { read_index = 0; write_index = 0 } }) in
    record s1 { retransmit_attempts = 0; fin_pending = false }

unfoldable pub close : Session → Session
close s = if s.closed then s else stop_ack_timer (record s { closed = true })
