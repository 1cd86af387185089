-- ===== src/Udprdma/Channel/Numbers.antt =====
-- udprdma/session_tx.go: the packets of a transfer are numbered one after the other.
use udpfsd.Common.{
  ℕ, ◌+◌, ◌%◌, ◌<◌, ◌≡◌, refl, sym, subst, arith, List, [], Bool, true, false, length, take, drop,
  length-take, length-drop,
}
use udpfsd.Udprdma.Session.{Session, Transfer, clear_transfer}
use udpfsd.Udprdma.Transmit.{enqueue, settle, first_size, next_size}
use udpfsd.Udprdma.Transfer.{Round, first, next, Rounds, done, more, Ends, idle, full, used}
use udpfsd.Udprdma.Transfer.Step.{first_size-le, next_size-le}
use udpfsd.Udprdma.Transfer.Bytes.{IsAligned}
use udpfsd.Udprdma.Transfer.Carry.{Round-IsAligned}
use udpfsd.Udprdma.Invariant.{IsSession, Round-IsSession}
use udpfsd.Udprdma.Channel.{IsReadable, data_packet-IsReadable, Numbered, no_more, and_then}

tx-settle : (n : ℕ) (fin : Bool) (s : Session) → (settle n fin s).tx_seq_nr ≡ s.tx_seq_nr
unfolding settle clear_transfer
tx-settle n true s = refl
tx-settle n false s = refl

tx-enqueue :
    (pkt : List ℕ) (fin : Bool) (s : Session)
    → (enqueue pkt fin s).tx_seq_nr ≡ (s.tx_seq_nr + 1) % 4096
unfolding enqueue
tx-enqueue pkt fin s = omega arith

tx-Round : {s t : Session} {pkt : List ℕ} → Round s pkt t → t.tx_seq_nr ≡ (s.tx_seq_nr + 1) % 4096
tx-Round (first bytes p w o h e f) = rw (f, tx-settle, tx-enqueue) refl
tx-Round (next bytes p w o h e f) = rw (f, tx-enqueue, tx-settle) refl

tx-Ends : {s t : Session} → Ends s t → t.tx_seq_nr ≡ s.tx_seq_nr
unfolding clear_transfer
tx-Ends (idle p e) = rw e
tx-Ends (full p e) = rw e
tx-Ends (used b p h k e) = rw e

next_size-filled :
    (t : Transfer) (bytes : List ℕ)
    → t.offset < length bytes
    → (0 < length bytes → 0 < t.max_chunk)
    → 0 < next_size t bytes
unfolding next_size
next_size-filled t bytes o c = ground arith

Round-IsReadable :
    {s t : Session} {pkt : List ℕ}
    → Round s pkt t
    → IsSession s
    → IsAligned s.transfer
    → IsReadable s.tx_seq_nr pkt
Round-IsReadable {s} (first bytes p w o h e f) i a =
    let n : ℕ = first_size s.transfer bytes in
    rw e (
      data_packet-IsReadable s.tx_seq_nr s.rx_seq_expected s.transfer.header (take n bytes) _
        i.window.tx_in a.header a.words
        (omega (arith, length-take n bytes, first_size-le s.transfer bytes, i.sendable.first_fits))
        (omega arith))
Round-IsReadable {s} (next bytes p w o h e f) i a =
    let n : ℕ = next_size s.transfer bytes in
    let rest : List ℕ = drop s.transfer.offset bytes in
    rw e (
      data_packet-IsReadable s.tx_seq_nr s.rx_seq_expected [] (take n rest) _ i.window.tx_in
        (omega arith) (omega arith)
        (omega (arith, length-take n rest, next_size-le s.transfer bytes, i.sendable.next_fits))
        (omega (
          arith,
          length-take n rest,
          length-drop s.transfer.offset bytes,
          next_size-filled s.transfer bytes o (i.sendable.chunks bytes p),
        )))

pub Rounds-Numbered :
    {s u : Session} {pkts : List (List ℕ)}
    → Rounds s pkts u
    → IsSession s
    → IsAligned s.transfer
    → Numbered s.tx_seq_nr pkts u.tx_seq_nr
Rounds-Numbered done i a = no_more
Rounds-Numbered {u = u} (more {pkts = pkts} r rs) i a = and_then (Round-IsReadable r i a) (
    subst (λ k. Numbered k pkts u.tx_seq_nr) (tx-Round r)
      (Rounds-Numbered rs (Round-IsSession r i) (Round-IsAligned r a)))

pub Ends-Numbered :
    {m : ℕ} {pkts : List (List ℕ)} {s t : Session}
    → Numbered m pkts s.tx_seq_nr
    → Ends s t
    → Numbered m pkts t.tx_seq_nr
Ends-Numbered {m} {pkts} d e = subst (λ k. Numbered m pkts k) (sym (tx-Ends e)) d
