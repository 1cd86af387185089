-- ===== src/Udprdma/Window/Prune.antt =====
-- udprdma/session_tx.go: `pruneAcked` drops the packets that an ACK covers, and no others.
use udpfsd.Common.{
  ℕ, zero, suc, ◌+◌, ◌-◌, ◌%◌, ◌<◌, ◌≤◌, ◌≡◌, ap, ◌∙◌, arith, low_bits, sub16, ltb, ◌==◌, true,
  false, inl, inr, Bool-cases, ltb→lt, ltb→le, min, refl, drop,
}
use udpfsd.Udprdma.Session.{TxPacket, Ring, Session}
use udpfsd.Udprdma.Transmit.{prune_loop, prune_acked}
use udpfsd.Udprdma.Window.{
  buffered, outstanding, advance, contents, IsContiguous, IsContiguous-tail, IsQueue,
}

-- Where the loop stops: `dropped` packets on, with no more left than are outstanding after the ACK;
-- and if those are less than half the sequence numbers, with none dropped that is outstanding.
pub record Pruned (read n left after : ℕ) : Type 0 where
  pub dropped : ℕ
  pub le : dropped ≤ n
  pub stops : after ≡ advance read dropped
  pub few : n - dropped ≤ left
  pub exact : left < 2048 → dropped ≡ n - left

-- One look at the oldest packet
oldest_test :
    (n tx ack seq : ℕ)
    → suc n < 2048
    → tx < 4096
    → ack < 4096
    → seq ≡ (tx + 4096 - suc n + 0) % 4096
    → low_bits (sub16 (sub16 seq ack) 1) 12 ≡ (outstanding tx ack + 4096 - suc n) % 4096
oldest_test n tx ack seq p q r e = omega arith

at_end : (read write : ℕ) → read < 2048 → write ≡ advance read 0 → (read == write) ≡ true
at_end read write h e = ground arith

not_at_end :
    (n read write : ℕ)
    → read < 2048
    → write ≡ advance read (suc n)
    → suc n < 2048
    → (read == write) ≡ false
not_at_end n read write h e p = ground arith

pub prune_loop_lem :
    (n fuel : ℕ) (slots : ℕ → TxPacket) (write ack read tx : ℕ)
    → read < 2048
    → write ≡ advance read n
    → n < fuel
    → n < 2048
    → tx < 4096
    → ack < 4096
    → IsContiguous slots read n tx
    → Pruned read n (outstanding tx ack) (prune_loop fuel slots write ack read)
unfolding prune_loop
prune_loop_lem n zero slots write ack read tx hr hw hf hn ht ha c = absurd (omega arith)
prune_loop_lem zero (suc fuel) slots write ack read tx hr hw hf hn ht ha c =
    rw (at_end read write hr hw) (record {
      dropped = 0;
      le = omega arith;
      stops = omega arith;
      few = omega arith;
      exact = λ _. omega arith;
    })
prune_loop_lem (suc n) (suc fuel) slots write ack read tx hr hw hf hn ht ha c =
    rw (not_at_end n read write hr hw hn) (elim (Bool-cases (ltb distance 2048)) [
      | inl keep ↦ rw keep (record {
        dropped = 0;
        le = omega arith;
        stops = omega arith;
        few = omega (arith, test, ltb→lt distance 2048 keep);
        exact = λ few. omega (arith, test, ltb→lt distance 2048 keep);
      })
      | inr drop ↦ rw drop (
          skip (ltb→le distance 2048 drop) (
            prune_loop_lem n fuel slots write ack (advance read 1) tx (omega arith) (omega arith)
              (omega arith) (omega arith) ht ha (IsContiguous-tail slots read n tx hn c)))
    ])
  where
    distance : ℕ
    distance = low_bits (sub16 (sub16 (slots read).seq ack) 1) 12

    first : (slots read).seq ≡ (tx + 4096 - suc n + 0) % 4096
    first = let e : advance read 0 ≡ read = omega arith in rw e at (c 0 (omega arith))

    test : distance ≡ (outstanding tx ack + 4096 - suc n) % 4096
    test = oldest_test n tx ack (slots read).seq hn ht ha first

    skip :
        {after : ℕ}
        → 2048 ≤ distance
        → Pruned (advance read 1) n (outstanding tx ack) after
        → Pruned read (suc n) (outstanding tx ack) after
    skip h p = record {
      dropped = suc p.dropped;
      le = omega (arith, p.le);
      stops = omega (arith, p.stops, p.le);
      few = omega (arith, p.few);
      exact = λ small. omega (arith, test, p.exact small);
    }

IsContiguous-drop :
    (slots : ℕ → TxPacket) (read n tx j after m : ℕ)
    → n < 2048
    → j ≤ n
    → after ≡ advance read j
    → m ≡ n - j
    → IsContiguous slots read n tx
    → IsContiguous slots after m tx
IsContiguous-drop slots read n tx j after m small le at left h k lt =
    ap (λ i. (slots i).seq) index ∙ h (j + k) (omega arith) ∙ omega arith
  where
    index : advance after k ≡ advance read (j + k)
    index = omega arith

module _ (r : Ring) (tx old ack after : ℕ) (q : IsQueue r tx old) (ha : ack < 4096)
    (p : Pruned r.read_index (buffered r) (outstanding tx ack) after) where
  pruned_ring : Ring
  pruned_ring = record r { read_index = after }

  buffered-pruned_ring : buffered pruned_ring ≡ buffered r - p.dropped
  unfolding pruned_ring
  buffered-pruned_ring = omega (arith, p.stops, p.le, q.read_in, q.write_in)

  pruned_ring-IsQueue : IsQueue pruned_ring tx ack
  unfolding pruned_ring
  pruned_ring-IsQueue = record {
    read_in = omega (arith, p.stops);
    write_in = q.write_in;
    tx_in = q.tx_in;
    acked_in = ha;
    few = omega (arith, buffered-pruned_ring, q.few);
    within = omega (arith, buffered-pruned_ring, p.few);
    contiguous =
        IsContiguous-drop r.slots r.read_index (buffered r) tx p.dropped after _
          (omega (arith, q.few)) p.le p.stops buffered-pruned_ring q.contiguous;
  }

-- Where the loop of `pruneAcked` stops on a queue
prune_loop-Pruned :
    (r : Ring) (tx old ack : ℕ)
    → IsQueue r tx old
    → ack < 4096
    → Pruned r.read_index
        (buffered r)
        (outstanding tx ack)
        (prune_loop 2048 r.slots r.write_index ack r.read_index)
prune_loop-Pruned r tx old ack q ha =
    prune_loop_lem (buffered r) 2048 r.slots r.write_index ack r.read_index tx q.read_in
      (omega (arith, q.read_in, q.write_in)) (omega (arith, q.few)) (omega (arith, q.few)) q.tx_in
      ha q.contiguous

-- After an ACK of `ack` the ring is a queue with `ack` as the last number acknowledged; and where
-- fewer than half the numbers are outstanding, it holds just the outstanding part of what it held.
pub prune_acked_lem :
    (ack : ℕ) (s : Session)
    → IsQueue s.ring s.tx_seq_nr s.tx_seq_nr_acked
    → ack < 4096
    → IsQueue (prune_acked ack s).ring s.tx_seq_nr ack
      × (outstanding s.tx_seq_nr ack < 2048
          → buffered (prune_acked ack s).ring ≡ min (buffered s.ring) (outstanding s.tx_seq_nr ack))
unfolding prune_acked pruned_ring
prune_acked_lem ack s q ha =
    let p = prune_loop-Pruned s.ring s.tx_seq_nr s.tx_seq_nr_acked ack q ha in
    (
      pruned_ring-IsQueue s.ring s.tx_seq_nr s.tx_seq_nr_acked ack _ q ha p,
      λ small. omega (
        arith,
        buffered-pruned_ring s.ring s.tx_seq_nr s.tx_seq_nr_acked ack _ q ha p,
        p.exact small,
      ),
    )

contents-advance :
    (slots : ℕ → TxPacket) (read j n : ℕ)
    → read < 2048
    → j ≤ n
    → contents slots (advance read j) (n - j) ≡ drop j (contents slots read n)
unfolding contents
contents-advance slots read zero n hr h =
    let a : advance read 0 ≡ read = omega arith in let b : n - 0 ≡ n = omega arith in rw (a, b) refl
contents-advance slots read (suc j) zero hr h = absurd (omega arith)
contents-advance slots read (suc j) (suc n) hr h =
    let a : advance read (suc j) ≡ advance (advance read 1) j = omega arith in
    let b : suc n - suc j ≡ n - j = omega arith in
    rw (a, b) (contents-advance slots (advance read 1) j n (omega arith) (omega arith))

-- The packets that are left are the last of those that were buffered.
pub prune_acked-contents :
    (ack : ℕ) (s : Session)
    → IsQueue s.ring s.tx_seq_nr s.tx_seq_nr_acked
    → ack < 4096
    → outstanding s.tx_seq_nr ack < 2048
    → let r = (prune_acked ack s).ring in
      contents r.slots r.read_index (buffered r)
      ≡ drop
          (buffered s.ring - outstanding s.tx_seq_nr ack)
          (contents s.ring.slots s.ring.read_index (buffered s.ring))
unfolding prune_acked pruned_ring
prune_acked-contents ack s q ha small =
    let p = prune_loop-Pruned s.ring s.tx_seq_nr s.tx_seq_nr_acked ack q ha in
    let n = buffered-pruned_ring s.ring s.tx_seq_nr s.tx_seq_nr_acked ack _ q ha p in
    ap
      (λ m.
        contents s.ring.slots
          (prune_loop 2048 s.ring.slots s.ring.write_index ack s.ring.read_index) m)
      n
    ∙ ap (λ i. contents s.ring.slots i (buffered s.ring - p.dropped)) p.stops
    ∙ contents-advance s.ring.slots s.ring.read_index p.dropped (buffered s.ring) q.read_in p.le
    ∙ ap (λ j. drop j (contents s.ring.slots s.ring.read_index (buffered s.ring))) (p.exact small)

-- Where fewer than half the numbers are outstanding, an ACK of `ack` leaves the ring a queue that
-- holds just the packets after `ack`, of those that it held.
pub prune_acked-exact :
    (ack : ℕ) (s : Session)
    → IsQueue s.ring s.tx_seq_nr s.tx_seq_nr_acked
    → ack < 4096
    → outstanding s.tx_seq_nr ack < 2048
    → IsQueue (prune_acked ack s).ring s.tx_seq_nr ack
      × (buffered (prune_acked ack s).ring ≡ min (buffered s.ring) (outstanding s.tx_seq_nr ack))
prune_acked-exact ack s q ha small = let p = prune_acked_lem ack s q ha in (p.0, p.1 small)
