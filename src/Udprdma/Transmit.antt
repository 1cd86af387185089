-- ===== src/Udprdma/Transmit.antt =====
-- udprdma/session_tx.go: packing, sending within the window, retransmitting, timeouts.
use udpfsd.Common.{
  ℕ, zero, suc, ◌+◌, ◌-◌, ◌*◌, ◌/◌, Bool, true, false, Option, none, some, List, [], ◌∷◌, ◌++◌, map,
  ltb, leb, ◌==◌, ◌&&◌, ◌||◌, not, if◌then◌else◌, length, take, drop, replicate, update, u8, u16,
  u64, low_bits, sub16, bit_or, Outcome, ok, panic, stuck, ◌>>=◌,
}
use udpfsd.Udprdma.Protocol.{
  pack_header, pack_data_header, packet_data, data_flag_ack, data_flag_fin, header_size,
  data_header_size, max_data_payload, send_window, max_retransmits,
}
use udpfsd.Udprdma.Session.{
  Transfer, datagram, TxPacket, Metrics, Session, wait_none, ring_size, slot_size, count_up,
  next_index, emit, in_flight, clear_transfer, stop_ack_timer, reset_send_state,
}
use udpfsd.Udprdma.AckTimer.{window_full, arm_ack_timer, update_ack_timer, same_mode}

-- (n + 3) & ^3
abbrev pub pad4 : ℕ → ℕ
pad4 n = (n + 3) / 4 * 4

-- int(math.Ceil(float64(totalBytes) / float64(maxChunk))): exact below 2^50 bytes, where the quotient
-- is too far from the next whole number to be rounded to it.
abbrev pub ceil_div : ℕ → ℕ → ℕ
ceil_div n d = (n + d - 1) / d

unfoldable pub better_chunk : ℕ → List ℕ → ℕ → ℕ → ℕ
better_chunk total [] best_packets best_chunk = best_chunk
better_chunk total (max_chunk ∷ rest) best_packets best_chunk =
    let packets = ceil_div total max_chunk in
    let better = ltb packets best_packets in
    better_chunk total rest (if better then packets else best_packets)
      (if better then max_chunk else best_chunk)

unfoldable pub optimal_chunk_size : ℕ → ℕ
unfolding better_chunk
optimal_chunk_size total = better_chunk total (1024 ∷ 1280 ∷ 1408 ∷ []) (ceil_div total 1408) 1408

-- The datagram of `sendACK`
unfoldable pub control_packet : Bool → ℕ → ℕ → List ℕ
control_packet ack tx_seq rx_expected =
    pack_header (record { packet_type = packet_data; seq_nr = tx_seq })
    ++ pack_data_header (record {
      seq_nr_ack = if ack then low_bits (sub16 rx_expected 1) 12 else rx_expected;
      flags = if ack then data_flag_ack else 0;
      hdr_word_count = 0;
      data_byte_count = 0;
    })

unfoldable pub send_ack : Bool → Session → Session
send_ack ack s =
    let s1 = emit (datagram (control_packet ack s.tx_seq_nr s.rx_seq_expected) ∷ []) s in
    record s1 {
      metrics = record s1.metrics {
        packets_tx = count_up s1.metrics.packets_tx;
        nacks = if ack then s1.metrics.nacks else count_up s1.metrics.nacks;
      };
    }

-- The bytes of a DATA packet: headers, application header, data, zeros up to a multiple of four
unfoldable pub data_packet : ℕ → ℕ → List ℕ → List ℕ → Bool → List ℕ
data_packet tx_seq rx_expected header data_bytes fin =
    pack_header (record { packet_type = packet_data; seq_nr = tx_seq })
    ++ (pack_data_header (record {
      seq_nr_ack = low_bits (sub16 rx_expected 1) 12;
      flags = if fin then bit_or data_flag_ack data_flag_fin else data_flag_ack;
      hdr_word_count = u8 (length header / 4);
      data_byte_count = u16 (pad4 (length data_bytes));
    })
        ++ (header ++ (data_bytes ++ replicate (pad4 (length data_bytes) - length data_bytes) 0)))

-- The state after a packet is put into the ring
unfoldable pub enqueue : List ℕ → Bool → Session → Session
enqueue pkt fin s = record s {
  ring = record s.ring {
    slots = update s.ring.slots s.ring.write_index (record { bytes = pkt; seq = s.tx_seq_nr });
    write_index = next_index s.ring.write_index;
  };
  tx_seq_nr = low_bits (u16 (s.tx_seq_nr + 1)) 12;
  metrics = record s.metrics { packets_tx = count_up s.metrics.packets_tx };
  fin_pending = if fin then true else s.fin_pending;
  retransmit_attempts = if fin then 0 else s.retransmit_attempts;
}

-- The slot's slice is extended up to its capacity: beyond that Go panics, and so does a full ring.
unfoldable pub pack_data_packet : List ℕ → List ℕ → Bool → Session → Outcome (List ℕ × Session)
pack_data_packet header data_bytes fin s =
    if ltb slot_size (length header + pad4 (length data_bytes) + header_size + data_header_size)
    then panic
    else if next_index s.ring.write_index == s.ring.read_index
    then panic
    else let pkt = data_packet s.tx_seq_nr s.rx_seq_expected header data_bytes fin in
      ok (pkt, enqueue pkt fin s)

abbrev pub set_offset : ℕ → Session → Session
set_offset n s = record s { transfer = record s.transfer { offset = n } }

-- How much data the first packet takes beside the application header
unfoldable pub first_data_max : ℕ → ℕ → ℕ
first_data_max max_chunk header_length =
    if ltb header_length max_data_payload
    then if ltb (max_data_payload - header_length) max_chunk
      then max_data_payload - header_length
      else max_chunk
    else max_chunk

-- The size of the chunk in the first packet and in a later one, which start at `offset`
unfoldable pub first_size : Transfer → List ℕ → ℕ
first_size t bytes =
    let most = first_data_max t.max_chunk (length t.header) in
    if ltb (length bytes) most then length bytes else most

unfoldable pub next_size : Transfer → List ℕ → ℕ
next_size t bytes =
    if ltb (length bytes) (t.offset + t.max_chunk) then length bytes - t.offset else t.max_chunk

-- The transfer moves on to `n`, and is cleared if it is at its end.
unfoldable pub settle : ℕ → Bool → Session → Session
settle n fin s = let s1 = set_offset n s in if fin then clear_transfer s1 else s1

-- The first round of the loop of `handleTransfer`, where the packet carries the application header.
-- The transfer is updated after the packet is packed, and before it in the later rounds.
unfoldable pub send_first : List ℕ → Session → Outcome (List ℕ × Session)
send_first bytes s =
    let n = first_size s.transfer bytes in
    let fin = leb (length bytes) n in
    pack_data_packet s.transfer.header (take n bytes) fin s >>= λ (pkt, s1).
    ok (pkt, settle n fin s1)

unfoldable pub send_next : List ℕ → Session → Outcome (List ℕ × Session)
send_next bytes s =
    let n = next_size s.transfer bytes in
    let end = s.transfer.offset + n in
    let fin = leb (length bytes) end in
    pack_data_packet [] (take n (drop s.transfer.offset bytes)) fin (settle end fin s)

-- A round of the loop of `handleTransfer` on `s.transfer.data`; `loop` is the loop that goes on.
unfoldable pub transfer_round :
    Option (List ℕ)
    → (List (List ℕ) → Session → Outcome (List (List ℕ) × Session))
    → List (List ℕ)
    → Session
    → Outcome (List (List ℕ) × Session)
transfer_round none loop batch s = ok (batch, s)
transfer_round (some bytes) loop batch s =
    let more = λ (p : List ℕ × Session). loop (batch ++ (p.0 ∷ [])) p.1 in
    if leb send_window (in_flight s)
    then ok (batch, s)
    else if s.transfer.offset == 0 && ltb 0 (length s.transfer.header)
    then (send_first bytes s >>= more)
    else if leb (length bytes) s.transfer.offset
    then ok (batch, clear_transfer s)
    else (send_next bytes s >>= more)

-- The loop of `handleTransfer`: the batch so far, and the state
unfoldable pub transfer_loop : ℕ → List (List ℕ) → Session → Outcome (List (List ℕ) × Session)
transfer_loop zero batch s = stuck
transfer_loop (suc fuel) batch s = transfer_round s.transfer.payload (transfer_loop fuel) batch s

abbrev pub write_batch : List (List ℕ) → Session → Session
write_batch batch s = emit (map datagram batch) s

-- Every round but the last sends a byte or the header, so this many rounds are enough.
unfoldable pub transfer_fuel : Option (List ℕ) → ℕ
transfer_fuel none = 1
transfer_fuel (some bytes) = length bytes + 2

unfoldable pub handle_transfer : Session → Outcome Session
handle_transfer s = transfer_loop (transfer_fuel s.transfer.payload) [] s >>= λ (batch, s1).
    ok (update_ack_timer (write_batch batch s1))

abbrev pub start_transfer : List ℕ → List ℕ → ℕ → Session → Session
start_transfer header data_bytes max_chunk s = record s {
  transfer = record {
    header = header;
    payload = some data_bytes;
    offset = 0;
    max_chunk = max_chunk;
  };
}

unfoldable pub send_data : List ℕ → Session → Outcome Session
send_data payload s =
    handle_transfer (start_transfer [] payload (length payload) (reset_send_state s))

unfoldable pub send_raw_data_with_header : List ℕ → List ℕ → Session → Outcome Session
send_raw_data_with_header header data_bytes s =
    handle_transfer (
      start_transfer header data_bytes (optimal_chunk_size (length data_bytes))
        (reset_send_state s))

-- The loop of `pruneAcked`: the read index that it stops at. `fuel` counts the slots left to look at.
unfoldable pub prune_loop : ℕ → (ℕ → TxPacket) → ℕ → ℕ → ℕ → ℕ
prune_loop zero slots write ack read = read
prune_loop (suc fuel) slots write ack read =
    let rest = prune_loop fuel slots write ack (next_index read) in
    if read == write
    then read
    else if ltb (low_bits (sub16 (sub16 (slots read).seq ack) 1) 12) 2048
    then read
    else rest

unfoldable pub prune_acked : ℕ → Session → Session
prune_acked ack s = record s {
  ring = record s.ring {
    read_index = prune_loop ring_size s.ring.slots s.ring.write_index ack s.ring.read_index;
  };
}

-- The loop of `retransmitFrom`: the batch
unfoldable pub retransmit_loop : ℕ → (ℕ → TxPacket) → ℕ → ℕ → ℕ → List (List ℕ)
retransmit_loop zero slots write from i = []
retransmit_loop (suc fuel) slots write from i =
    let rest = retransmit_loop fuel slots write from (next_index i) in
    if i == write
    then []
    else if leb 2048 (low_bits (sub16 (slots i).seq from) 12)
    then []
    else if (slots i).seq == low_bits (sub16 from 1) 12
    then rest
    else (slots i).bytes ∷ rest

-- `n` times `packetsTx++` and `retransmits++`
unfoldable pub count_retransmits : ℕ → Metrics → Metrics
count_retransmits n m = record m {
  packets_tx = u64 (m.packets_tx + n);
  retransmits = u64 (m.retransmits + n);
}

unfoldable pub retransmit_from : ℕ → Session → ℕ × Session
retransmit_from from s =
    let batch = retransmit_loop ring_size s.ring.slots s.ring.write_index from s.ring.read_index in
    let s1 = record s { metrics = count_retransmits (length batch) s.metrics } in
    (length batch, write_batch batch s1)

-- The oldest sequence number that is not acknowledged
abbrev pub first_unacked : Session → ℕ
first_unacked s = low_bits (u16 (s.tx_seq_nr_acked + 1)) 12

unfoldable pub handle_ack_timeout : Session → Session
handle_ack_timeout s =
    let waiting_fin = s.fin_pending in
    let waiting_window = not s.fin_pending && window_full s in
    if not waiting_fin && not waiting_window
    then stop_ack_timer s
    else let s1 = record s { retransmit_attempts = s.retransmit_attempts + 1 } in
      let s2 = (retransmit_from (first_unacked s1) s1).1 in
      if ltb s2.retransmit_attempts max_retransmits
      then arm_ack_timer s2
      else let s3 = if waiting_fin then record s2 { fin_pending = false } else clear_transfer s2 in
        record (stop_ack_timer s3) { retransmit_attempts = 0 }

-- ack_timer.go: what the timer calls when it fires
unfoldable pub ack_timer_func : Session → Session
ack_timer_func s =
    if s.closed
      || same_mode s.timer.wait_mode wait_none
      || not (s.timer.expect_seq == s.timer.timer_seq)
    then s
    else handle_ack_timeout (record s { timer = record s.timer { wait_mode = wait_none } })
