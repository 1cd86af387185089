-- ===== src/Udprdma/Progress/Acked.antt =====
-- udprdma/acks.go and session_tx.go: an ACK of all that was sent lets a transfer go on, to its end.
use udpfsd.Common.{
  ℕ, zero, suc, ◌-◌, ◌<◌, ◌≤◌, ◌≡◌, refl, ap, ◌∙◌, arith, List, true, false, ◌==◌, Outcome, ok,
  ◌>>=◌, Returns, Returns-ok, Returns-bind, Bool-cases, inl, inr,
}
use udpfsd.Udprdma.Session.{
  Session, Transfer, in_flight, in_range, is_empty, seq_between, stop_ack_timer, clear_transfer,
}
use udpfsd.Udprdma.AckTimer.{has_payload}
use udpfsd.Udprdma.AckTimer.Frame.{update_ack_timer-frame}
use udpfsd.Udprdma.Transmit.{write_batch, prune_acked}
use udpfsd.Udprdma.Acks.{on_ack, on_peer_ack, last_sent}
use udpfsd.Udprdma.Window.{buffered, outstanding}
use udpfsd.Udprdma.Window.Pack.{in_flight_lem}
use udpfsd.Udprdma.Window.Prune.{prune_acked_lem}
use udpfsd.Udprdma.Transfer.{Rounds, done, more, Ends, idle, full, used, IsSendable}
use udpfsd.Udprdma.Transfer.Step.{Round-IsSendable}
use udpfsd.Udprdma.Transfer.Total.{remaining, Round-remaining}
use udpfsd.Udprdma.Transfer.Bytes.{IsAligned}
use udpfsd.Udprdma.Invariant.{IsSession, Handled, handle_transfer-Handled}
use udpfsd.Udprdma.Invariant.Receiving.{on_ack-IsSession}
use udpfsd.Udprdma.Progress.{
  Progress, IsQuiet, on_ack-IsQuiet, Handled-Progress, Progress-trans, Progress-quiet,
  Progress-after, transfer-timer,
}

-- Every number lies between any start and itself.
seq_between_self : (start seq : ℕ) → seq_between start seq seq ≡ true
unfolding seq_between in_range
seq_between_self start seq = ground arith

last_sent-lt : (s : Session) → last_sent s < 4096
last_sent-lt s = omega arith

ring-on_ack :
    (s : Session)
    → is_empty s.ring ≡ false
    → (on_ack (last_sent s) s).ring ≡ (prune_acked (last_sent s) s).ring
unfolding on_ack prune_acked stop_ack_timer
ring-on_ack s sent =
    let same : (last_sent s == last_sent s) ≡ true = ground arith in
    rw (sent, seq_between_self s.tx_seq_nr_acked (last_sent s), same)

-- Once all that was sent is acknowledged, nothing is in flight.
caught_up : (s : Session) → IsSession s → in_flight (on_ack (last_sent s) s) ≡ 0
unfolding on_ack
caught_up s i = elim (Bool-cases (is_empty s.ring)) [
  | inl none_sent ↦ rw none_sent (unfold in_flight in rw none_sent)
  | inr sent ↦ nothing_buffered sent
]
  where
    nothing_buffered : is_empty s.ring ≡ false → in_flight (on_ack (last_sent s) s) ≡ 0
    nothing_buffered sent =
        let j = on_ack-IsSession (last_sent s) s i (last_sent-lt s) in
        let (q, exact) = prune_acked_lem (last_sent s) s i.window (last_sent-lt s) in
        let zero_left : outstanding s.tx_seq_nr (last_sent s) ≡ 0 = omega (arith, i.window.tx_in) in
        let none_left : buffered (prune_acked (last_sent s) s).ring ≡ 0 =
          omega (arith, exact (omega (arith, zero_left)), zero_left) in
        let here : buffered (on_ack (last_sent s) s).ring ≡ 0 =
          ap buffered (ring-on_ack s sent) ∙ none_left in
        in_flight_lem (on_ack (last_sent s) s) j.window ∙ rw here

-- The peer acknowledges the last packet that it was sent, `k` times.
pub ack_all : ℕ → Session → Outcome Session
ack_all zero s = ok s
ack_all (suc k) s = on_peer_ack (last_sent s) s >>= ack_all k

Rounds-remaining :
    {s u : Session} {pkts : List (List ℕ)}
    → IsSendable s.transfer
    → Rounds s pkts u
    → remaining u.transfer ≤ remaining s.transfer
Rounds-remaining g done = omega arith
Rounds-remaining g (more r rs) =
    omega (arith, Round-remaining g r, Rounds-remaining (Round-IsSendable r g) rs)

Ends-remaining : {s t : Session} → Ends s t → remaining t.transfer ≤ remaining s.transfer
unfolding clear_transfer remaining
Ends-remaining (idle p e) = rw e (omega arith)
Ends-remaining (full p e) = rw e (omega arith)
Ends-remaining (used b p h k e) = rw e (omega arith)

remaining-pos : (t : Transfer) → has_payload t ≡ true → 0 < remaining t
unfolding has_payload remaining
remaining-pos t h = ground arith

remaining-clear : (s : Session) → remaining (clear_transfer s).transfer ≡ 0
unfolding clear_transfer remaining
remaining-clear s = refl

-- With nothing in flight, something is sent or the transfer ends.
first_round :
    {s t u : Session} {pkts : List (List ℕ)}
    → IsSendable s.transfer
    → in_flight s ≡ 0
    → has_payload s.transfer ≡ true
    → Rounds s pkts t
    → Ends t u
    → remaining u.transfer < remaining s.transfer
unfolding has_payload
first_round g z h (more r rs) e =
    omega (arith, Round-remaining g r, Rounds-remaining (Round-IsSendable r g) rs, Ends-remaining e)
first_round g z h done (idle p e) = ground arith
first_round g z h done (full p e) = absurd (omega arith)
first_round {s} g z h done (used b p o k e) =
    rw e (omega (arith, remaining-clear s, remaining-pos s.transfer h))

-- An ACK of everything lets the transfer go on: less remains than before, if anything did.
record IsStep (s t : Session) : Type 0 where
  progress : Progress s t
  less : remaining t.transfer ≤ remaining s.transfer - 1

Handled-less :
    {s t : Session}
    → Handled s t
    → IsSession s
    → in_flight s ≡ 0
    → has_payload s.transfer ≡ true
    → remaining t.transfer < remaining s.transfer
Handled-less {s} {t} h i z p =
    let f = update_ack_timer-frame (write_batch h.pkts h.after) in
    let e : t.transfer ≡ h.after.transfer =
      ap (λ (x : Session). x.transfer) h.finish ∙ transfer-timer f in
    rw e (first_round i.sendable z p h.rounds h.ends)

remaining-none : (t : Transfer) → has_payload t ≡ false → remaining t ≡ 0
unfolding has_payload remaining
remaining-none t h = ground arith

on_peer_ack-IsStep :
    (s : Session)
    → IsSession s
    → IsAligned s.transfer
    → Returns (IsStep s) (on_peer_ack (last_sent s) s)
unfolding on_peer_ack
on_peer_ack-IsStep s i a = elim (Bool-cases (has_payload t.transfer)) [
  | inl sending ↦
      let r = handle_transfer-Handled t j in
      rw sending (record {
        value = r.value;
        result = r.result;
        holds = record {
          progress = Progress-after q (Handled-Progress r.holds j (rw q.transfer a));
          less =
              omega
                (arith, Handled-less r.holds j (caught_up s i) sending, ap remaining q.transfer);
        };
      })
  | inr off ↦ rw off (
      Returns-ok t (record {
        progress = Progress-quiet q j a;
        less = omega (arith, remaining-none t.transfer off);
      }))
]
  where
    t : Session
    t = on_ack (last_sent s) s

    q : IsQuiet s t
    q = on_ack-IsQuiet (last_sent s) s

    j : IsSession t
    j = on_ack-IsSession (last_sent s) s i (last_sent-lt s)

-- What is reached with enough ACKs
pub record IsFinal (s t : Session) : Type 0 where
  pub progress : Progress s t
  pub finished : remaining t.transfer ≡ 0

pub Progress-refl : (s : Session) → IsSession s → IsAligned s.transfer → Progress s s
Progress-refl s i a = Progress-quiet (record { transfer = refl; trace = refl; number = refl }) i a

pub ack_all-IsFinal :
    (k : ℕ) (s : Session)
    → IsSession s
    → IsAligned s.transfer
    → remaining s.transfer ≤ k
    → Returns (IsFinal s) (ack_all k s)
unfolding ack_all
ack_all-IsFinal zero s i a h =
    Returns-ok s (record { progress = Progress-refl s i a; finished = omega arith })
ack_all-IsFinal (suc k) s i a h = Returns-bind {P = IsStep s} _ _ (on_peer_ack-IsStep s i a) (λ t n.
    let r = ack_all-IsFinal k t n.progress.session n.progress.aligned (omega (arith, n.less)) in
    record {
      value = r.value;
      result = r.result;
      holds = record {
        progress = Progress-trans n.progress r.holds.progress;
        finished = r.holds.finished;
      };
    })

pub Handled-remaining :
    {s t : Session} → Handled s t → IsSession s → remaining t.transfer ≤ remaining s.transfer
Handled-remaining {s} {t} h i =
    let f = update_ack_timer-frame (write_batch h.pkts h.after) in
    let e : t.transfer ≡ h.after.transfer =
      ap (λ (x : Session). x.transfer) h.finish ∙ transfer-timer f in
    omega (arith, ap remaining e, Rounds-remaining i.sendable h.rounds, Ends-remaining h.ends)
