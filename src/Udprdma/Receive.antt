-- ===== src/Udprdma/Receive.antt =====
-- udprdma/session_rx.go: a received DATA packet.
pub mod Delivery
pub mod Cases
use udpfsd.Common.{
  ℕ, ◌+◌, ◌*◌, ◌==◌, Bool, true, false, Option, none, some, List, not, if◌then◌else◌, ltb, length,
  take, drop, u16, low_bits, sub16, Outcome, ok, panic, ◌>>=◌,
}
use udpfsd.Udprdma.Protocol.{
  Header, DataHeader, unpack_header, unpack_data_header, packet_data, data_flag_ack,
}
use udpfsd.Udprdma.Session.{Session, count_up, reset_session}
use udpfsd.Udprdma.AckTimer.{has_payload}
use udpfsd.Udprdma.Transmit.{send_ack, first_unacked}
use udpfsd.Udprdma.Acks.{on_peer_ack, on_peer_nack}

-- What `ProcessDataPacket` returns: an error, nil and no error, or the payload
pub data Received : Type 0 where
  invalid : Received
  nothing : Received
  payload : List ℕ → Received

abbrev pub count_rx : Session → Session
count_rx s = record s { metrics = record s.metrics { packets_rx = count_up s.metrics.packets_rx } }

abbrev pub count_peer_nack : Session → Session
count_peer_nack s = record s {
  metrics = record s.metrics { peer_nacks = count_up s.metrics.peer_nacks };
}

abbrev pub count_unexpected : Session → Session
count_unexpected s = record s {
  metrics = record s.metrics { unexpected_seq_nrs = count_up s.metrics.unexpected_seq_nrs };
}

-- header.Flags & DataFlagACK != 0
abbrev pub is_ack : DataHeader → Bool
is_ack h = not (low_bits h.flags data_flag_ack == 0)

unfoldable pub ack_if : Bool → ℕ → Session → Outcome Session
ack_if true seq s = on_peer_ack seq s
ack_if false seq s = ok s

-- An empty packet: the peer's ACK or NACK
unfoldable pub receive_control : DataHeader → Session → Outcome (Received × Session)
receive_control h s =
    if is_ack h
    then (on_peer_ack h.seq_nr_ack s >>= λ s1. ok (nothing, s1))
    else ok (nothing, on_peer_nack h.seq_nr_ack (count_peer_nack s))

-- The packet before the expected one: it is acknowledged again.
unfoldable pub receive_previous : DataHeader → Session → Outcome (Received × Session)
receive_previous h s =
    let retransmit = has_payload s.transfer in
    let from = first_unacked s in
    let s1 = send_ack true (count_unexpected s) in
    ack_if (is_ack h) h.seq_nr_ack s1 >>= λ s2.
    ok (nothing, if retransmit then on_peer_nack from s2 else s2)

unfoldable pub receive_unexpected : DataHeader → Session → Outcome (Received × Session)
receive_unexpected h s =
    ack_if (is_ack h) h.seq_nr_ack (send_ack false (count_unexpected s)) >>= λ s1. ok (nothing, s1)

unfoldable pub accept : ℕ → DataHeader → List ℕ → Session → Outcome (Received × Session)
accept seq h bytes s =
    let s1 = send_ack true (record s { rx_seq_expected = low_bits (u16 (seq + 1)) 12 }) in
    ack_if (is_ack h) h.seq_nr_ack s1 >>= λ s2. ok (payload bytes, s2)

-- A packet with a payload
unfoldable pub receive_payload : ℕ → DataHeader → List ℕ → Session → Outcome (Received × Session)
receive_payload seq h bytes s =
    if seq == s.rx_seq_expected
    then accept seq h bytes s
    else if seq == low_bits (sub16 s.rx_seq_expected 1) 12
    then receive_previous h s
    else if seq == 0
    then accept seq h bytes (reset_session s)
    else receive_unexpected h s

-- hdrSize + DataByteCount, cut to what the packet holds
abbrev pub payload_size : DataHeader → List ℕ → ℕ
payload_size h bytes =
    let n = h.hdr_word_count * 4 + h.data_byte_count in
    if ltb (length bytes) n then length bytes else n

unfoldable pub receive_data :
    ℕ → List ℕ → Option DataHeader → Session → Outcome (Received × Session)
receive_data seq bytes none s = ok (invalid, s)
receive_data seq bytes (some h) s =
    let n = payload_size h bytes in
    if n == 0
    then receive_control h (count_rx s)
    else receive_payload seq h (take n bytes) (count_rx s)

unfoldable pub receive_header : List ℕ → Option Header → Session → Outcome (Received × Session)
receive_header packet none s = ok (invalid, s)
receive_header packet (some hdr) s =
    if not (hdr.packet_type == packet_data)
    then ok (invalid, s)
    else if ltb (length packet) 6
    then panic
    else receive_data hdr.seq_nr (drop 6 packet) (unpack_data_header (take 4 (drop 2 packet))) s

-- The slice `data[2:6]` panics on a shorter packet.
unfoldable pub process_data_packet : List ℕ → Session → Outcome (Received × Session)
process_data_packet packet s = receive_header packet (unpack_header packet) s
