-- ===== src/Udprdma/Transfer.antt =====
-- The transfer of udprdma/session_tx.go as a step relation: what a round of the loop of
-- `handleTransfer` sends and leaves.
pub mod Step
pub mod Total
pub mod Bytes
pub mod Carry
pub mod CarryAll
use udpfsd.Common.{
  ℕ, suc, ◌+◌, ◌-◌, ◌%◌, ◌<◌, ◌≤◌, ◌≡◌, ◌⊎◌, arith, List, [], ◌∷◌, ◌++◌, Option, none, some, length,
  take, drop, Bool, true, false, if◌then◌else◌, ltb, leb, ◌==◌,
}
use udpfsd.Udprdma.Session.{Session, Transfer, in_flight, clear_transfer}
use udpfsd.Udprdma.Transmit.{
  data_packet, enqueue, first_size, next_size, first_data_max, settle, pad4,
}

abbrev pub first_packet : List ℕ → Session → List ℕ
first_packet bytes s =
    let n = first_size s.transfer bytes in
    data_packet s.tx_seq_nr s.rx_seq_expected s.transfer.header (take n bytes)
      (leb (length bytes) n)

abbrev pub next_end : List ℕ → Session → ℕ
next_end bytes s = s.transfer.offset + next_size s.transfer bytes

abbrev pub next_packet : List ℕ → Session → List ℕ
next_packet bytes s =
    data_packet s.tx_seq_nr s.rx_seq_expected []
      (take (next_size s.transfer bytes) (drop s.transfer.offset bytes))
      (leb (length bytes) (next_end bytes s))

-- One round sends a packet.
pub data Round (s : Session) : List ℕ → Session → Type 0 where
  first :
      (bytes : List ℕ) {pkt : List ℕ} {t : Session}
      → s.transfer.payload ≡ some bytes
      → in_flight s < 8
      → s.transfer.offset ≡ 0
      → 0 < length s.transfer.header
      → pkt ≡ first_packet bytes s
      → t
        ≡ settle
            (first_size s.transfer bytes)
            (leb (length bytes) (first_size s.transfer bytes))
            (enqueue pkt (leb (length bytes) (first_size s.transfer bytes)) s)
      → Round s pkt t
  next :
      (bytes : List ℕ) {pkt : List ℕ} {t : Session}
      → s.transfer.payload ≡ some bytes
      → in_flight s < 8
      → s.transfer.offset < length bytes
      → (s.transfer.offset ≡ 0 → length s.transfer.header ≡ 0)
      → pkt ≡ next_packet bytes s
      → t
        ≡ enqueue pkt
            (leb (length bytes) (next_end bytes s))
            (settle (next_end bytes s) (leb (length bytes) (next_end bytes s)) s)
      → Round s pkt t

pub data Rounds : Session → List (List ℕ) → Session → Type 0 where
  done : {s : Session} → Rounds s [] s
  more :
      {s : Session} {pkt : List ℕ} {pkts : List (List ℕ)} {t u : Session}
      → Round s pkt t
      → Rounds t pkts u
      → Rounds s (pkt ∷ pkts) u

-- Why the loop ends: nothing is left to send, the window is full, or the data is used up already.
pub data Ends (s : Session) : Session → Type 0 where
  idle : {t : Session} → s.transfer.payload ≡ none → t ≡ s → Ends s t
  full : {t : Session} → 8 ≤ in_flight s → t ≡ s → Ends s t
  used :
      (bytes : List ℕ) {t : Session}
      → s.transfer.payload ≡ some bytes
      → length bytes ≤ s.transfer.offset
      → (s.transfer.offset ≡ 0 → length s.transfer.header ≡ 0)
      → t ≡ clear_transfer s
      → Ends s t

-- A transfer whose packets fit the slots of the ring, and whose chunks are not empty
pub record IsSendable (t : Transfer) : Type 0 where
  pub first_fits : length t.header + pad4 (first_data_max t.max_chunk (length t.header)) ≤ 1494
  pub next_fits : pad4 t.max_chunk ≤ 1494
  pub chunks : (bytes : List ℕ) → t.payload ≡ some bytes → 0 < length bytes → 0 < t.max_chunk
