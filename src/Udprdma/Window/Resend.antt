-- ===== src/Udprdma/Window/Resend.antt =====
-- udprdma/session_tx.go: from which numbers on `retransmitFrom` sends the packets of the ring.
use udpfsd.Common.{
  ℕ, zero, suc, ◌+◌, ◌-◌, ◌%◌, ◌<◌, ◌≤◌, ◌≡◌, refl, ap, arith, low_bits, sub16, leb, ◌==◌, true,
  false, [], ◌∷◌,
}
use udpfsd.Udprdma.Session.{TxPacket, Ring}
use udpfsd.Udprdma.Transmit.{retransmit_loop}
use udpfsd.Udprdma.Window.{buffered, advance, contents, IsContiguous, IsContiguous-tail, IsQueue}

-- How far the oldest of `n` packets before `tx` lies after `from`
abbrev pub gap : ℕ → ℕ → ℕ → ℕ
gap tx n from = (tx + 8192 - n - from) % 4096

at_end : (read write : ℕ) → read < 2048 → write ≡ advance read 0 → (read == write) ≡ true
at_end read write h e = ground arith

-- What the loop reads of the oldest packet
record Look (n read write tx from seq : ℕ) : Type 0 where
  more : (read == write) ≡ false
  distance : low_bits (sub16 seq from) 12 ≡ gap tx (suc n) from
  other : gap tx (suc n) from < 2048 → (seq == low_bits (sub16 from 1) 12) ≡ false

look :
    (n : ℕ) (slots : ℕ → TxPacket) (write from read tx : ℕ)
    → read < 2048
    → write ≡ advance read (suc n)
    → suc n < 2048
    → tx < 4096
    → from < 4096
    → IsContiguous slots read (suc n) tx
    → Look n read write tx from (slots read).seq
look n slots write from read tx hr hw hn ht hf c = record {
  more = ground arith;
  distance = omega (arith, first);
  other = λ h. ground (arith, first);
}
  where
    first : (slots read).seq ≡ (tx + 4096 - suc n + 0) % 4096
    first = let e : advance read 0 ≡ read = omega arith in rw e at (c 0 (omega arith))

retransmit_loop_all :
    (n fuel : ℕ) (slots : ℕ → TxPacket) (write from read tx : ℕ)
    → read < 2048
    → write ≡ advance read n
    → n < fuel
    → n < 2048
    → tx < 4096
    → from < 4096
    → gap tx n from + n ≤ 2048
    → IsContiguous slots read n tx
    → retransmit_loop fuel slots write from read ≡ contents slots read n
unfolding retransmit_loop contents
retransmit_loop_all n zero slots write from read tx hr hw hf hn ht hg small c = absurd (omega arith)
retransmit_loop_all zero (suc fuel) slots write from read tx hr hw hf hn ht hg small c =
    rw (at_end read write hr hw)
retransmit_loop_all (suc n) (suc fuel) slots write from read tx hr hw hf hn ht hg small c =
    let l = look n slots write from read tx hr hw hn ht hg c in
    let near : leb 2048 (gap tx (suc n) from) ≡ false = ground arith in
    rw (l.more, l.distance, near, l.other (omega arith))
      (ap (λ rest. (slots read).bytes ∷ rest)
        (retransmit_loop_all n fuel slots write from (advance read 1) tx (omega arith) (omega arith)
          (omega arith) (omega arith) ht hg (omega arith) (IsContiguous-tail slots read n tx hn c)))

retransmit_loop_none :
    (n fuel : ℕ) (slots : ℕ → TxPacket) (write from read tx : ℕ)
    → read < 2048
    → write ≡ advance read n
    → n < 2048
    → tx < 4096
    → from < 4096
    → 2048 ≤ gap tx n from
    → IsContiguous slots read n tx
    → retransmit_loop fuel slots write from read ≡ []
unfolding retransmit_loop
retransmit_loop_none n zero slots write from read tx hr hw hn ht hg far c = refl
retransmit_loop_none zero (suc fuel) slots write from read tx hr hw hn ht hg far c =
    rw (at_end read write hr hw)
retransmit_loop_none (suc n) (suc fuel) slots write from read tx hr hw hn ht hg far c =
    let l = look n slots write from read tx hr hw hn ht hg c in
    let away : leb 2048 (gap tx (suc n) from) ≡ true = ground arith in rw (l.more, l.distance, away)

-- The packets that `retransmitFrom` sends from a queue: all that are buffered, in order, if `from` is
-- their oldest number or at most 2048 less their count before it; and none if `from` is after their
-- oldest number, also where it is the number of a later packet of the buffer.
pub batch_lem :
    (from : ℕ) (r : Ring) (tx acked : ℕ)
    → IsQueue r tx acked
    → from < 4096
    → (gap tx (buffered r) from + buffered r ≤ 2048
        → retransmit_loop 2048 r.slots r.write_index from r.read_index
          ≡ contents r.slots r.read_index (buffered r))
      × (2048 ≤ gap tx (buffered r) from
          → retransmit_loop 2048 r.slots r.write_index from r.read_index ≡ [])
batch_lem from r tx acked q hf = (
  λ small.
      retransmit_loop_all (buffered r) 2048 r.slots r.write_index from r.read_index tx q.read_in
        (omega (arith, q.read_in, q.write_in)) (omega (arith, q.few)) (omega (arith, q.few)) q.tx_in
        hf small q.contiguous,
  λ far.
      retransmit_loop_none (buffered r) 2048 r.slots r.write_index from r.read_index tx q.read_in
        (omega (arith, q.read_in, q.write_in)) (omega (arith, q.few)) q.tx_in hf far q.contiguous,
)
