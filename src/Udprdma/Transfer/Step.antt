-- ===== src/Udprdma/Transfer/Step.antt =====
-- udprdma/session_tx.go: a round of the loop keeps the window, and what is left can still be sent.
use udpfsd.Common.{
  ℕ, ◌+◌, ◌<◌, ◌≤◌, ◌≡◌, refl, arith, List, [], length, length-take, take, drop, Bool, true, false,
  leb, ok,
}
use udpfsd.Udprdma.Session.{Session, Transfer, in_flight, is_empty, clear_transfer}
use udpfsd.Udprdma.Transmit.{
  data_packet, enqueue, first_size, next_size, first_data_max, settle, pad4, send_first, send_next,
}
use udpfsd.Udprdma.Window.Pack.{IsWindow, enqueue-IsWindow, pack_data_packet-ok}
use udpfsd.Udprdma.Transfer.{Round, first, next, IsSendable, first_packet, next_packet, next_end}

pub settle-IsWindow : (n : ℕ) (fin : Bool) (s : Session) → IsWindow s → IsWindow (settle n fin s)
unfolding settle clear_transfer
settle-IsWindow n true s q = q
settle-IsWindow n false s q = q

pub in_flight-settle : (n : ℕ) (fin : Bool) (s : Session) → in_flight (settle n fin s) ≡ in_flight s
unfolding settle in_flight clear_transfer is_empty
in_flight-settle n true s = refl
in_flight-settle n false s = refl

open-settle : (n : ℕ) (fin : Bool) (s : Session) → in_flight s < 8 → in_flight (settle n fin s) < 8
open-settle n fin s h = omega (arith, in_flight-settle n fin s)

pub Round-IsWindow : {s t : Session} {pkt : List ℕ} → Round s pkt t → IsWindow s → IsWindow t
Round-IsWindow {s} (first bytes {pkt} p open_window o h e f) q =
    rw f (settle-IsWindow _ _ _ (enqueue-IsWindow pkt _ s q open_window))
Round-IsWindow {s} (next bytes {pkt} p open_window o h e f) q = rw f (
    enqueue-IsWindow pkt _ _ (settle-IsWindow _ _ s q)
      (open-settle (next_end bytes s) _ s open_window))

settle-IsSendable :
    (n : ℕ) (fin : Bool) (s : Session)
    → IsSendable s.transfer
    → IsSendable (settle n fin s).transfer
unfolding settle clear_transfer first_data_max
settle-IsSendable n true s q = record {
  first_fits = ground (arith, q.next_fits);
  next_fits = q.next_fits;
  chunks = λ bytes e. cc;
}
settle-IsSendable n false s q = record {
  first_fits = q.first_fits;
  next_fits = q.next_fits;
  chunks = q.chunks;
}

transfer-enqueue :
    (pkt : List ℕ) (fin : Bool) (s : Session) → (enqueue pkt fin s).transfer ≡ s.transfer
unfolding enqueue
transfer-enqueue pkt fin s = refl

pub Round-IsSendable :
    {s t : Session} {pkt : List ℕ} → Round s pkt t → IsSendable s.transfer → IsSendable t.transfer
Round-IsSendable {s} (first bytes {pkt} p open_window o h e f) q =
    rw f (settle-IsSendable _ _ _ (rw transfer-enqueue q))
Round-IsSendable {s} (next bytes {pkt} p open_window o h e f) q =
    rw (f, transfer-enqueue) (settle-IsSendable _ _ s q)

pub first_size-le :
    (t : Transfer) (bytes : List ℕ)
    → first_size t bytes ≤ first_data_max t.max_chunk (length t.header)
unfolding first_size
first_size-le t bytes = ground arith

pub next_size-le : (t : Transfer) (bytes : List ℕ) → next_size t bytes ≤ t.max_chunk
unfolding next_size
next_size-le t bytes = ground arith

data_packet-settle :
    (n : ℕ) (done : Bool) (s : Session) (header chunk : List ℕ) (fin : Bool)
    → data_packet (settle n done s).tx_seq_nr (settle n done s).rx_seq_expected header chunk fin
      ≡ data_packet s.tx_seq_nr s.rx_seq_expected header chunk fin
unfolding settle clear_transfer
data_packet-settle n true s header chunk fin = refl
data_packet-settle n false s header chunk fin = refl

-- The two calls of `packDataPacket` succeed.
pub send_first-ok :
    (bytes : List ℕ) (s : Session)
    → IsWindow s
    → in_flight s < 8
    → IsSendable s.transfer
    → let n = first_size s.transfer bytes in
      let fin = leb (length bytes) n in
      send_first bytes s
      ≡ ok (first_packet bytes s, settle n fin (enqueue (first_packet bytes s) fin s))
unfolding send_first
send_first-ok bytes s q w ok_transfer =
    rw (pack_data_packet-ok s.transfer.header (take n bytes) (leb (length bytes) n) s q w fits)
  where
    n : ℕ
    n = first_size s.transfer bytes

    fits : length s.transfer.header + pad4 (length (take n bytes)) ≤ 1494
    fits =
        omega (arith, length-take n bytes, first_size-le s.transfer bytes, ok_transfer.first_fits)

pub send_next-ok :
    (bytes : List ℕ) (s : Session)
    → IsWindow s
    → in_flight s < 8
    → IsSendable s.transfer
    → let fin = leb (length bytes) (next_end bytes s) in
      send_next bytes s
      ≡ ok
          (next_packet bytes s, enqueue (next_packet bytes s) fin (settle (next_end bytes s) fin s))
unfolding send_next
send_next-ok bytes s q w ok_transfer = rw (
  pack_data_packet-ok [] chunk fin (settle end fin s) (settle-IsWindow end fin s q)
      (open-settle end fin s w) fits,
  same_numbers,
)
  where
    n : ℕ
    n = next_size s.transfer bytes

    end : ℕ
    end = next_end bytes s

    fin : Bool
    fin = leb (length bytes) end

    chunk : List ℕ
    chunk = take n (drop s.transfer.offset bytes)

    fits : 0 + pad4 (length chunk) ≤ 1494
    fits = omega (
      arith,
      length-take n (drop s.transfer.offset bytes),
      next_size-le s.transfer bytes,
      ok_transfer.next_fits,
    )

    same_numbers :
        data_packet (settle end fin s).tx_seq_nr (settle end fin s).rx_seq_expected [] chunk fin
        ≡ next_packet bytes s
    same_numbers = data_packet-settle end fin s [] chunk fin
