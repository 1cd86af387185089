-- ===== src/Udprdma/Progress.antt =====
-- The transfers of udprdma/session_tx.go and acks.go over a whole session: a reply is started, and the
-- peer's ACKs let it go on.
pub mod Acked
pub mod Start
pub mod Complete
use udpfsd.Common.{
  ℕ, zero, suc, ◌+◌, ◌%◌, ◌<◌, ◌≤◌, ◌≡◌, refl, sym, ap, subst, ◌∙◌, arith, List, [], ◌∷◌, ◌++◌, map,
  Bool, true, false, Option, none, some, if◌then◌else◌, ◌==◌, not, length, drop, Outcome, ok, ◌>>=◌,
  Returns, Returns-ok, Returns-bind, Bool-cases, inl, inr, append-nil, append_assoc, map-append,
  drop_all,
}
use udpfsd.Udprdma.Session.{
  Session, Transfer, Event, datagram, in_flight, is_empty, seq_between, stop_ack_timer,
  clear_transfer, reset_send_state,
}
use udpfsd.Udprdma.AckTimer.{has_payload, update_ack_timer}
use udpfsd.Udprdma.AckTimer.Frame.{IsTimerOf, update_ack_timer-frame, stop_ack_timer-frame}
use udpfsd.Udprdma.Transmit.{
  handle_transfer, write_batch, prune_acked, send_raw_data_with_header, send_data, start_transfer,
  optimal_chunk_size, settle, enqueue,
}
use udpfsd.Udprdma.Acks.{on_ack, on_peer_ack, last_sent}
use udpfsd.Udprdma.Transfer.{
  Round, first, next, Rounds, done, more, Ends, idle, full, used, IsSendable,
}
use udpfsd.Udprdma.Transfer.Bytes.{bodies, unsent, zeros, IsAligned, unsent-some}
use udpfsd.Udprdma.Transfer.Carry.{header_spent}
use udpfsd.Udprdma.Transfer.CarryAll.{
  CarriesAll, Rounds-CarriesAll, CarriesAll-none, CarriesAll-trans,
}
use udpfsd.Udprdma.Channel.{Numbered, no_more, Numbered-append}
use udpfsd.Udprdma.Channel.Numbers.{Rounds-Numbered, Ends-Numbered}
use udpfsd.Udprdma.Invariant.Receiving.{on_ack-IsSession}
use udpfsd.Udprdma.Invariant.{
  IsSession, Handled, handle_transfer-Handled, Handled-IsSession, reset_send_state-IsSession,
  start_transfer-IsSession, optimal_chunk_size_lem,
}

-- `t` is `s` after packets with the next numbers that carry the next bytes of its transfer.
pub record Progress (s t : Session) : Type 0 where
  pub pkts : List (List ℕ)
  pub sent : t.trace ≡ s.trace ++ map datagram pkts
  pub carries : CarriesAll s.transfer pkts t.transfer
  pub aligned : IsAligned t.transfer
  pub numbered : Numbered s.tx_seq_nr pkts t.tx_seq_nr
  pub session : IsSession t

trace-settle : (n : ℕ) (fin : Bool) (s : Session) → (settle n fin s).trace ≡ s.trace
unfolding settle clear_transfer
trace-settle n true s = refl
trace-settle n false s = refl

trace-enqueue : (pkt : List ℕ) (fin : Bool) (s : Session) → (enqueue pkt fin s).trace ≡ s.trace
unfolding enqueue
trace-enqueue pkt fin s = refl

trace-Round : {s t : Session} {pkt : List ℕ} → Round s pkt t → t.trace ≡ s.trace
trace-Round (first bytes p w o h e f) = rw (f, trace-settle, trace-enqueue)
trace-Round (next bytes p w o h e f) = rw (f, trace-enqueue, trace-settle)

trace-Rounds : {s u : Session} {pkts : List (List ℕ)} → Rounds s pkts u → u.trace ≡ s.trace
trace-Rounds done = refl
trace-Rounds (more r rs) = trace-Rounds rs ∙ trace-Round r

trace-Ends : {s t : Session} → Ends s t → t.trace ≡ s.trace
unfolding clear_transfer
trace-Ends (idle p e) = rw e
trace-Ends (full p e) = rw e
trace-Ends (used b p h k e) = rw e

-- Where the loop clears a transfer nothing of it is left.
record Left (s t : Transfer) : Type 0 where
  same : unsent t ≡ unsent s
  aligned : IsAligned t
  sending : has_payload t ≡ true → has_payload s ≡ true
  idle : has_payload s ≡ false → has_payload t ≡ false

Left-refl : (s : Transfer) → IsAligned s → Left s s
Left-refl s a = record { same = refl; aligned = a; sending = λ h. h; idle = λ h. h }

Ends-Left : {s t : Session} → Ends s t → IsAligned s.transfer → Left s.transfer t.transfer
unfolding clear_transfer unsent has_payload
Ends-Left {s} (idle p e) a = rw e (Left-refl s.transfer a)
Ends-Left {s} (full p e) a = rw e (Left-refl s.transfer a)
Ends-Left {s} (used bytes p h k e) a = rw e (record {
  same = sym (
      unsent-some s.transfer bytes p
      ∙ ap (λ x. x ++ drop s.transfer.offset bytes) (header_spent s.transfer k)
      ∙ drop_all s.transfer.offset bytes h);
  aligned = record { chunk = a.chunk; header = omega arith; words = omega arith };
  sending = λ q. cc;
  idle = λ q. refl;
})

CarriesAll-Left :
    {s t u : Transfer} {pkts : List (List ℕ)} → CarriesAll s pkts t → Left t u → CarriesAll s pkts u
CarriesAll-Left {pkts = pkts} c l = record {
  padding = c.padding;
  short = c.short;
  same = ap (λ x. bodies pkts ++ x) l.same ∙ c.same;
  whole = λ h. c.whole (l.sending h);
  idle = λ h. ((c.idle h).0, l.idle (c.idle h).1);
}

pub trace-timer : {s t : Session} → IsTimerOf s t → t.trace ≡ s.trace
trace-timer f = ap (λ (x : Session). x.trace) f.same

pub transfer-timer : {s t : Session} → IsTimerOf s t → t.transfer ≡ s.transfer
transfer-timer f = ap (λ (x : Session). x.transfer) f.same

pub tx-timer : {s t : Session} → IsTimerOf s t → t.tx_seq_nr ≡ s.tx_seq_nr
tx-timer f = ap (λ (x : Session). x.tx_seq_nr) f.same

pub Handled-Progress :
    {s t : Session} → Handled s t → IsSession s → IsAligned s.transfer → Progress s t
Handled-Progress {s} {t} h i a =
    let (c, b) = Rounds-CarriesAll h.rounds a i.sendable in
    let l = Ends-Left h.ends b in
    let f = update_ack_timer-frame (write_batch h.pkts h.after) in
    let e : t.transfer ≡ h.after.transfer =
      ap (λ (x : Session). x.transfer) h.finish ∙ transfer-timer f in
    record {
      pkts = h.pkts;
      sent =
          ap (λ (x : Session). x.trace) h.finish
          ∙ trace-timer f
          ∙ ap (λ x. x ++ map datagram h.pkts) (trace-Ends h.ends ∙ trace-Rounds h.rounds);
      carries = rw e (CarriesAll-Left c l);
      aligned = rw e l.aligned;
      numbered =
          subst (λ k. Numbered s.tx_seq_nr h.pkts k)
            (sym (ap (λ (x : Session). x.tx_seq_nr) h.finish ∙ tx-timer f))
            (Ends-Numbered (Rounds-Numbered h.rounds i a) h.ends);
      session = Handled-IsSession h i;
    }

pub handle_transfer-Progress :
    (s : Session) → IsSession s → IsAligned s.transfer → Returns (Progress s) (handle_transfer s)
handle_transfer-Progress s i a =
    let r = handle_transfer-Handled s i in
    record { value = r.value; result = r.result; holds = Handled-Progress r.holds i a }

-- An ACK changes neither the transfer nor the trace nor the next number.
pub record IsQuiet (s t : Session) : Type 0 where
  pub transfer : t.transfer ≡ s.transfer
  pub trace : t.trace ≡ s.trace
  pub number : t.tx_seq_nr ≡ s.tx_seq_nr

IsQuiet-timer : {s t : Session} → IsTimerOf s t → IsQuiet s t
IsQuiet-timer f = record { transfer = transfer-timer f; trace = trace-timer f; number = tx-timer f }

if-IsQuiet :
    (b : Bool) {s : Session} (t u : Session)
    → IsQuiet s t
    → IsQuiet s u
    → IsQuiet s (if b then t else u)
if-IsQuiet true t u q r = q
if-IsQuiet false t u q r = r

pub on_ack-IsQuiet : (ack : ℕ) (s : Session) → IsQuiet s (on_ack ack s)
unfolding on_ack prune_acked stop_ack_timer
on_ack-IsQuiet ack s = elim (Bool-cases (is_empty s.ring)) [
  | inl none_sent ↦ rw none_sent same
  | inr sent ↦ elim (Bool-cases (seq_between s.tx_seq_nr_acked ack (last_sent s))) [
    | inr stale ↦ rw (sent, stale) same
    | inl fresh ↦ elim (Bool-cases (ack == last_sent s)) [
      | inl all ↦ rw (sent, fresh, all) (record { transfer = refl; trace = refl; number = refl })
      | inr part ↦
          rw (sent, fresh, part)
            (record {
              transfer = transfer-timer frame;
              trace = trace-timer frame;
              number = tx-timer frame;
            })
    ]
  ]
]
  where
    same : IsQuiet s s
    same = record { transfer = refl; trace = refl; number = refl }

    pruned : Session
    pruned = record (prune_acked ack (record s { tx_seq_nr_acked = ack })) {
      retransmit_attempts = 0;
    }

    frame : IsTimerOf pruned (update_ack_timer pruned)
    frame = update_ack_timer-frame pruned

-- Progress after an operation that leaves the transfer and the trace alone
pub Progress-after : {s t u : Session} → IsQuiet s t → Progress t u → Progress s u
Progress-after {s} {t} {u} q p = record {
  pkts = p.pkts;
  sent = p.sent ∙ ap (λ x. x ++ map datagram p.pkts) q.trace;
  carries = subst (λ (x : Transfer). CarriesAll x p.pkts u.transfer) q.transfer p.carries;
  aligned = p.aligned;
  numbered = subst (λ k. Numbered k p.pkts u.tx_seq_nr) q.number p.numbered;
  session = p.session;
}

pub Progress-quiet :
    {s t : Session} → IsQuiet s t → IsSession t → IsAligned s.transfer → Progress s t
Progress-quiet {s} {t} q i a = record {
  pkts = [];
  sent = q.trace ∙ sym (append-nil s.trace);
  carries = rw q.transfer (CarriesAll-none s.transfer);
  aligned = rw q.transfer a;
  numbered = subst (λ k. Numbered s.tx_seq_nr [] k) (sym q.number) no_more;
  session = i;
}

pub on_peer_ack-Progress :
    (ack : ℕ) (s : Session)
    → IsSession s
    → IsAligned s.transfer
    → ack < 4096
    → Returns (Progress s) (on_peer_ack ack s)
unfolding on_peer_ack
on_peer_ack-Progress ack s i a h = elim (Bool-cases (has_payload t.transfer)) [
  | inl sending ↦
      let r = handle_transfer-Progress t j (rw q.transfer a) in
      rw sending (record { value = r.value; result = r.result; holds = Progress-after q r.holds })
  | inr off ↦ rw off (Returns-ok t (Progress-quiet q j a))
]
  where
    t : Session
    t = on_ack ack s

    q : IsQuiet s t
    q = on_ack-IsQuiet ack s

    j : IsSession t
    j = on_ack-IsSession ack s i h

pub Progress-trans : {s t u : Session} → Progress s t → Progress t u → Progress s u
Progress-trans {s} {t} {u} p r = record {
  pkts = p.pkts ++ r.pkts;
  sent =
      r.sent
      ∙ ap (λ x. x ++ map datagram r.pkts) p.sent
      ∙ append_assoc s.trace (map datagram p.pkts) (map datagram r.pkts)
      ∙ ap (λ x. s.trace ++ x) (sym (map-append _ p.pkts r.pkts));
  carries = CarriesAll-trans p.carries r.carries;
  aligned = r.aligned;
  numbered = Numbered-append p.numbered r.numbered;
  session = r.session;
}
