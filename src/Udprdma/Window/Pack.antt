-- ===== src/Udprdma/Window/Pack.antt =====
-- udprdma/session_tx.go: `packDataPacket` keeps the ring a queue, and never panics within the window.
use udpfsd.Common.{
  ℕ, suc, ◌+◌, ◌-◌, ◌%◌, ◌<◌, ◌≤◌, ◌≡◌, refl, ◌∙◌, arith, low_bits, if◌then◌else◌, ltb, ◌==◌, true,
  false, Bool, Bool-cases, ltb→lt, ltb→le, u16, inl, inr, List, length, ok, update,
}
use udpfsd.Udprdma.Session.{TxPacket, Ring, Session, next_index, in_flight, is_empty, slot_size}
use udpfsd.Udprdma.Transmit.{pack_data_packet, enqueue, data_packet, pad4}
use udpfsd.Udprdma.Window.{buffered, outstanding, advance, IsContiguous, IsQueue}

abbrev pub IsWindow : Session → Type 0
IsWindow s = IsQueue s.ring s.tx_seq_nr s.tx_seq_nr_acked

-- On a queue `InFlight` is 0 if nothing is buffered, and else counts the outstanding numbers.
pub in_flight_lem :
    (s : Session)
    → IsWindow s
    → in_flight s ≡ (if buffered s.ring == 0 then 0 else outstanding s.tx_seq_nr s.tx_seq_nr_acked)
unfolding in_flight is_empty
in_flight_lem s q = ground (arith, q.read_in, q.write_in, q.tx_in, q.acked_in)

-- With fewer than eight in flight, at most eight are buffered; and if any are, fewer than eight
-- numbers are outstanding.
pub room :
    (s : Session)
    → IsWindow s
    → in_flight s < 8
    → (buffered s.ring ≤ 8) × (0 < buffered s.ring → outstanding s.tx_seq_nr s.tx_seq_nr_acked < 8)
room s q h = ground (arith, in_flight_lem s q, q.within)

module _ (slots : ℕ → TxPacket) (read n write tx : ℕ) (p : TxPacket) (hn : n < 2047)
    (hr : read < 2048) (hw : write ≡ advance read n) (ht : tx < 4096) (hp : p.seq ≡ tx)
    (c : IsContiguous slots read n tx) where
  new_slot :
      (k : ℕ)
      → k ≡ n
      → (update slots write p (advance read k)).seq ≡ ((tx + 1) % 4096 + 4096 - suc n + k) % 4096
  new_slot k e =
      let here : (advance read k == write) ≡ true = ground arith in rw here (omega (arith, hp))

  old_slot :
      (k : ℕ)
      → k < n
      → (update slots write p (advance read k)).seq ≡ ((tx + 1) % 4096 + 4096 - suc n + k) % 4096
  old_slot k lt =
      let away : (advance read k == write) ≡ false = ground arith in rw away (c k lt ∙ omega arith)

  IsContiguous-update : IsContiguous (update slots write p) read (suc n) ((tx + 1) % 4096)
  IsContiguous-update k lt = elim (Bool-cases (ltb k n)) [
    | inl before ↦ old_slot k (ltb→lt k n before)
    | inr last ↦ new_slot k (omega (arith, ltb→le k n last))
  ]

-- A ring with one packet more
pushed-IsQueue :
    (r : Ring) (tx acked : ℕ) (p : TxPacket)
    → IsQueue r tx acked
    → buffered r ≤ 8
    → (0 < buffered r → outstanding tx acked < 8)
    → p.seq ≡ tx
    → IsQueue
        (record {
          slots = update r.slots r.write_index p;
          write_index = next_index r.write_index;
          read_index = r.read_index;
        })
        ((tx + 1) % 4096)
        acked
pushed-IsQueue r tx acked p q few low e = record {
  read_in = q.read_in;
  write_in = omega arith;
  tx_in = omega arith;
  acked_in = q.acked_in;
  few = omega (arith, grown);
  within = ground (arith, grown, low, q.within, q.tx_in, q.acked_in);
  contiguous =
      let seqs : IsContiguous (update r.slots r.write_index p) r.read_index (suc (buffered r))
          ((tx + 1) % 4096) =
        IsContiguous-update r.slots r.read_index (buffered r) r.write_index tx p (omega arith)
          q.read_in (omega (arith, q.read_in, q.write_in)) q.tx_in e q.contiguous in
      rw grown seqs;
}
  where
    grown : (next_index r.write_index + 2048 - r.read_index) % 2048 ≡ suc (buffered r)
    grown = omega (arith, q.read_in, q.write_in, few)

-- A packet more, while fewer than eight are in flight
pub enqueue-IsWindow :
    (pkt : List ℕ) (fin : Bool) (s : Session)
    → IsWindow s
    → in_flight s < 8
    → IsWindow (enqueue pkt fin s)
unfolding enqueue
enqueue-IsWindow pkt fin s q h =
    let (few, low) = room s q h in
    let e : low_bits (u16 (s.tx_seq_nr + 1)) 12 ≡ (s.tx_seq_nr + 1) % 4096 = omega arith in
    rw e (
      pushed-IsQueue s.ring s.tx_seq_nr s.tx_seq_nr_acked
        (record { bytes = pkt; seq = s.tx_seq_nr }) q few low refl)

-- With fewer than eight in flight, a packet that fits its slot is packed: `packDataPacket` panics
-- neither for want of room in the slot nor because the ring is full.
pub pack_data_packet-ok :
    (header chunk : List ℕ) (fin : Bool) (s : Session)
    → IsWindow s
    → in_flight s < 8
    → length header + pad4 (length chunk) ≤ 1494
    → let pkt = data_packet s.tx_seq_nr s.rx_seq_expected header chunk fin in
      pack_data_packet header chunk fin s ≡ ok (pkt, enqueue pkt fin s)
unfolding pack_data_packet
pack_data_packet-ok header chunk fin s q h fits =
    let few = (room s q h).0 in
    let slot : ltb slot_size (length header + pad4 (length chunk) + 2 + 4) ≡ false = ground arith in
    let free : (next_index s.ring.write_index == s.ring.read_index) ≡ false =
      ground (arith, q.read_in, q.write_in, few) in
    rw (slot, free)
