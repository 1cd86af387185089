-- ===== src/Udprdma/Invariant.antt =====
-- The invariant of a session of udprdma/, and that sending keeps it.
pub mod Receiving
pub mod Life
use udpfsd.Common.{
  ℕ, ◌<◌, ◌≤◌, ◌+◌, ◌≡◌, refl, sym, ◌∙◌, subst, arith, List, [], ◌∷◌, Bool, true, false,
  if◌then◌else◌, leb, Outcome, ok, ◌>>=◌, length, Returns, Returns-ok, Returns-bind, Option, none,
  some, Bool-cases, inl, inr, ap,
}
use udpfsd.Udprdma.Session.{
  Session, TxPacket, Event, reset_callback, new_session, clear_transfer, in_flight, emit,
  stop_ack_timer, reset_session, reset_send_state, close,
}
use udpfsd.Udprdma.AckTimer.{update_ack_timer}
use udpfsd.Udprdma.AckTimer.Frame.{IsTimerOf, update_ack_timer-frame}
use udpfsd.Udprdma.Transmit.{
  enqueue, settle, transfer_loop, transfer_fuel, handle_transfer, send_data,
  send_raw_data_with_header, start_transfer, write_batch, optimal_chunk_size, better_chunk, pad4,
  first_data_max,
}
use udpfsd.Udprdma.Window.{IsQueue}
use udpfsd.Udprdma.Window.Pack.{IsWindow}
use udpfsd.Udprdma.Transfer.{
  Round, first, next, Rounds, done, more, Ends, idle, full, used, IsSendable,
}
use udpfsd.Udprdma.Transfer.Step.{Round-IsWindow, Round-IsSendable}
use udpfsd.Udprdma.Transfer.Total.{Looped, transfer_loop-Looped, remaining}

-- The ring is a queue within the window, what is left to send can be sent, and the number expected
-- next has twelve bits.
pub record IsSession (s : Session) : Type 0 where
  pub window : IsWindow s
  pub sendable : IsSendable s.transfer
  pub rx_in : s.rx_seq_expected < 4096

pub new_session-IsSession : IsSession new_session
unfolding new_session first_data_max
new_session-IsSession = record {
  window = record {
    read_in = omega arith;
    write_in = omega arith;
    tx_in = omega arith;
    acked_in = omega arith;
    few = omega arith;
    within = omega arith;
    contiguous = λ k h. absurd (omega arith);
  };
  sendable = record { first_fits = omega arith; next_fits = omega arith; chunks = λ b e. cc };
  rx_in = omega arith;
}

rx-settle :
    (n : ℕ) (fin : Bool) (s : Session) → (settle n fin s).rx_seq_expected ≡ s.rx_seq_expected
unfolding settle clear_transfer
rx-settle n true s = refl
rx-settle n false s = refl

rx-enqueue :
    (pkt : List ℕ) (fin : Bool) (s : Session)
    → (enqueue pkt fin s).rx_seq_expected ≡ s.rx_seq_expected
unfolding enqueue
rx-enqueue pkt fin s = refl

pub rx-Round :
    {s t : Session} {pkt : List ℕ} → Round s pkt t → t.rx_seq_expected ≡ s.rx_seq_expected
rx-Round (first bytes p w o h e f) = rw (f, rx-settle, rx-enqueue)
rx-Round (next bytes p w o h e f) = rw (f, rx-enqueue, rx-settle)

pub Round-IsSession : {s t : Session} {pkt : List ℕ} → Round s pkt t → IsSession s → IsSession t
Round-IsSession r i = record {
  window = Round-IsWindow r i.window;
  sendable = Round-IsSendable r i.sendable;
  rx_in = omega (arith, rx-Round r, i.rx_in);
}

pub Rounds-IsSession :
    {s u : Session} {pkts : List (List ℕ)} → Rounds s pkts u → IsSession s → IsSession u
Rounds-IsSession done i = i
Rounds-IsSession (more r rs) i = Rounds-IsSession rs (Round-IsSession r i)

pub clear_transfer-IsSession : {s : Session} → IsSession s → IsSession (clear_transfer s)
unfolding clear_transfer first_data_max
clear_transfer-IsSession {s} i = record {
  window = i.window;
  sendable = record {
    first_fits = ground (arith, i.sendable.next_fits);
    next_fits = i.sendable.next_fits;
    chunks = λ b e. cc;
  };
  rx_in = i.rx_in;
}

pub Ends-IsSession : {s t : Session} → Ends s t → IsSession s → IsSession t
Ends-IsSession (idle p e) i = rw e i
Ends-IsSession (full p e) i = rw e i
Ends-IsSession (used b p h k e) i = rw e (clear_transfer-IsSession i)

pub timer-IsSession : {s t : Session} → IsTimerOf s t → IsSession s → IsSession t
timer-IsSession f i =
    rw f.same (record { window = i.window; sendable = i.sendable; rx_in = i.rx_in })

pub emit-IsSession : (es : List Event) {s : Session} → IsSession s → IsSession (emit es s)
emit-IsSession es i = record { window = i.window; sendable = i.sendable; rx_in = i.rx_in }

enough : (s : Session) → remaining s.transfer < transfer_fuel s.transfer.payload
unfolding remaining transfer_fuel
enough s = ground arith

-- What `handleTransfer` comes to
pub record Handled (s t : Session) : Type 0 where
  pub pkts : List (List ℕ)
  pub last : Session
  pub after : Session
  pub rounds : Rounds s pkts last
  pub ends : Ends last after
  pub finish : t ≡ update_ack_timer (write_batch pkts after)

pub handle_transfer-Handled : (s : Session) → IsSession s → Returns (Handled s) (handle_transfer s)
unfolding handle_transfer
handle_transfer-Handled s i =
    let l =
      transfer_loop-Looped (transfer_fuel s.transfer.payload) [] s i.window i.sendable (enough s) in
    rw l.result (
      Returns-ok _ (record {
        pkts = l.pkts;
        last = l.last;
        after = l.after;
        rounds = l.rounds;
        ends = l.ends;
        finish = refl;
      }))

pub Handled-IsSession : {s t : Session} → Handled s t → IsSession s → IsSession t
Handled-IsSession h i = rw h.finish (
    timer-IsSession (update_ack_timer-frame _)
      (emit-IsSession _ (Ends-IsSession h.ends (Rounds-IsSession h.rounds i))))

pub handle_transfer-IsSession : (s : Session) → IsSession s → Returns IsSession (handle_transfer s)
handle_transfer-IsSession s i =
    let r = handle_transfer-Handled s i in
    record { value = r.value; result = r.result; holds = Handled-IsSession r.holds i }

-- An empty ring is a queue for any numbers of twelve bits.
empty_ring-IsQueue :
    (slots : ℕ → TxPacket) {tx acked : ℕ}
    → tx < 4096
    → acked < 4096
    → IsQueue (record { slots = slots; write_index = 0; read_index = 0 }) tx acked
empty_ring-IsQueue slots ht ha = record {
  read_in = omega arith;
  write_in = omega arith;
  tx_in = ht;
  acked_in = ha;
  few = omega arith;
  within = omega arith;
  contiguous = λ k h. absurd (omega arith);
}

emit_if-IsSession :
    (b : Bool) (es : List Event) {s : Session}
    → IsSession s
    → IsSession (if b then emit es s else s)
emit_if-IsSession true es i = emit-IsSession es i
emit_if-IsSession false es i = i

pub reset_session-IsSession : {s : Session} → IsSession s → IsSession (reset_session s)
unfolding reset_session stop_ack_timer clear_transfer first_data_max
reset_session-IsSession {s} i = emit_if-IsSession s.has_callback (reset_callback ∷ []) (record {
  window = empty_ring-IsQueue s.ring.slots (omega arith) (omega arith);
  sendable = record {
    first_fits = ground (arith, i.sendable.next_fits);
    next_fits = i.sendable.next_fits;
    chunks = λ b e. cc;
  };
  rx_in = omega arith;
})

pub reset_send_state-IsSession : {s : Session} → IsSession s → IsSession (reset_send_state s)
unfolding reset_send_state stop_ack_timer
reset_send_state-IsSession {s} i = record {
  window = empty_ring-IsQueue s.ring.slots i.window.tx_in i.window.acked_in;
  sendable = i.sendable;
  rx_in = i.rx_in;
}

-- The chunk size is 1408 whatever the number of bytes.
pub optimal_chunk_size_lem : (total : ℕ) → optimal_chunk_size total ≡ 1408
unfolding optimal_chunk_size better_chunk
optimal_chunk_size_lem total = ground arith

-- A new transfer that fits keeps the invariant.
pub start_transfer-IsSession :
    (header bytes : List ℕ) (max_chunk : ℕ) {s : Session}
    → IsSession s
    → length header + pad4 (first_data_max max_chunk (length header)) ≤ 1494
    → pad4 max_chunk ≤ 1494
    → (0 < length bytes → 0 < max_chunk)
    → IsSession (start_transfer header bytes max_chunk s)
start_transfer-IsSession header bytes max_chunk i fits small chunks = record {
  window = i.window;
  sendable = record { first_fits = fits; next_fits = small; chunks = λ b e. ground arith };
  rx_in = i.rx_in;
}

-- A single packet of at most 1492 bytes
pub send_data-IsSession :
    (bytes : List ℕ) (s : Session)
    → IsSession s
    → length bytes ≤ 1492
    → Returns IsSession (send_data bytes s)
unfolding send_data first_data_max
send_data-IsSession bytes s i h = handle_transfer-IsSession _ (
    start_transfer-IsSession [] bytes (length bytes) (reset_send_state-IsSession i) (ground arith)
      (omega arith) (λ p. p))

-- Any data, behind a header of less than 1408 bytes
pub send_raw_data_with_header-IsSession :
    (header bytes : List ℕ) (s : Session)
    → IsSession s
    → length header < 1408
    → Returns IsSession (send_raw_data_with_header header bytes s)
unfolding send_raw_data_with_header first_data_max
send_raw_data_with_header-IsSession header bytes s i h = handle_transfer-IsSession _ (
    start_transfer-IsSession header bytes (optimal_chunk_size (length bytes))
      (reset_send_state-IsSession i) (ground (arith, optimal_chunk_size_lem (length bytes)))
      (omega (arith, optimal_chunk_size_lem (length bytes)))
      (λ p. omega (arith, optimal_chunk_size_lem (length bytes))))
