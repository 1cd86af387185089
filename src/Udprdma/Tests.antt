-- ===== src/Udprdma/Tests.antt =====
-- Runs of the session of udprdma/ and of its packets, and the theorems at concrete values.
use udpfsd.Common.{
  ℕ, ◌+◌, ◌-◌, ◌%◌, ◌<◌, ◌≤◌, ◌≡◌, ◌↔◌, ◌⊎◌, inl, refl, arith, List, [], ◌∷◌, ◌++◌, map, true,
  false, some, length, replicate, ok, ◌>>=◌, Returns, min, drop, byte_at, get_u16,
}
use udpfsd.Udprdma.Protocol.{
  DataHeader, unpack_header, unpack_disc_header, unpack_data_header, pack_header, data_header_word,
  pack_data_header, process_discovery_packet, inform, inform_packet, packet_inform,
}
use udpfsd.Udprdma.Protocol.RoundTrip.{unpack_data_header-pack_data_header}
use udpfsd.Udprdma.Protocol.Inform.{inform_iff, inform_packet_fields}
use udpfsd.Udprdma.Session.{
  reset_send_state, stop_ack_timer, clear_transfer, Session, datagram, new_session, seq_between,
  in_flight, is_empty,
}
use udpfsd.Udprdma.AckTimer.{
  update_ack_timer, window_full, arm_ack_timer, arm, same_mode, has_payload,
}
use udpfsd.Udprdma.Transmit.{
  transfer_loop, transfer_fuel, transfer_round, send_next, next_size, settle, send_ack,
  handle_transfer, enqueue, data_packet, pack_data_packet, prune_acked, send_data,
  send_raw_data_with_header,
}
use udpfsd.Udprdma.Acks.{on_ack, on_peer_ack, on_peer_nack}
use udpfsd.Udprdma.Acks.Sequence.{
  seq_between_iff, on_ack_lem, Acked, on_peer_nack-oldest, on_peer_nack-later,
}
use udpfsd.Udprdma.Receive.{
  payload, count_rx, receive_header, receive_data, receive_payload, accept, ack_if,
  process_data_packet,
}
use udpfsd.Udprdma.Receive.Delivery.{Expects}
use udpfsd.Udprdma.Window.{IsQueue, buffered, outstanding, contents}
use udpfsd.Udprdma.Window.Pack.{IsWindow, enqueue-IsWindow, pack_data_packet-ok}
use udpfsd.Udprdma.Window.Prune.{prune_acked-exact}
use udpfsd.Udprdma.Invariant.{IsSession, new_session-IsSession}
use udpfsd.Udprdma.Invariant.Receiving.{process_data_packet-IsSession}
use udpfsd.Udprdma.Invariant.Life.{receive, send, timer_fires, run, run_safe}
use udpfsd.Udprdma.Timeout.{IsWaiting}
use udpfsd.Udprdma.Timeout.Silence.{fire, IsSilent, fire-IsSilent}
use udpfsd.Udprdma.Progress.Acked.{ack_all}
use udpfsd.Udprdma.Progress.Complete.{
  run_acks, Sends, reply_in_order, SendsAll, reply_complete, Transferred, reply_received,
}

abbrev header_bytes : List ℕ
header_bytes = 8 ∷ 0 ∷ 1 ∷ 0 ∷ []

abbrev data_bytes : List ℕ
data_bytes = 5 ∷ 6 ∷ 7 ∷ []

new_session-Expects : Expects 0 new_session
unfolding new_session
new_session-Expects = record { session = new_session-IsSession; number = refl }

reply_received_example :
    Returns (Transferred (header_bytes ++ data_bytes) new_session new_session) (
      send_raw_data_with_header header_bytes data_bytes new_session
      >>= ack_all (length data_bytes + 1))
unfolding new_session
reply_received_example =
    reply_received header_bytes data_bytes new_session new_session new_session-IsSession
      new_session-Expects (omega arith) (omega arith)

reply_complete_example : Returns (SendsAll (header_bytes ++ data_bytes) new_session) (
    send_raw_data_with_header header_bytes data_bytes new_session
    >>= ack_all (length data_bytes + 1))
reply_complete_example =
    reply_complete header_bytes data_bytes new_session new_session-IsSession (omega arith)
      (omega arith)

reply_in_order_example : Returns (Sends (header_bytes ++ replicate 3000 7) new_session) (
    send_raw_data_with_header header_bytes (replicate 3000 7) new_session
    >>= run_acks (0 ∷ 9 ∷ 2 ∷ []))
reply_in_order_example =
    reply_in_order header_bytes (replicate 3000 7) (0 ∷ 9 ∷ 2 ∷ []) new_session
      new_session-IsSession (omega arith) (omega arith)
      (omega arith, (omega arith, (omega arith, tt)))

run_safe_example :
    Returns
      (λ s. IsSession s × (buffered s.ring ≤ 9))
      (run
        (send (1 ∷ 2 ∷ []) ∷ timer_fires ∷ receive (2 ∷ 0 ∷ 0 ∷ 0 ∷ 0 ∷ 0 ∷ []) ∷ [])
        new_session)
run_safe_example =
    run_safe (send (1 ∷ 2 ∷ []) ∷ timer_fires ∷ receive (2 ∷ 0 ∷ 0 ∷ 0 ∷ 0 ∷ 0 ∷ []) ∷ [])
      (omega arith, (tt, (omega arith, tt)))

-- A DATA packet with number 0 and four bytes, and an ACK of 0xFFF
abbrev packet : List ℕ
packet = 2 ∷ 0 ∷ 0xFF ∷ 0x1F ∷ 0x10 ∷ 0 ∷ 1 ∷ 2 ∷ 3 ∷ 4 ∷ []

process_data_packet-IsSession_example :
    Returns (λ r. IsSession r.1) (process_data_packet packet new_session)
process_data_packet-IsSession_example =
    process_data_packet-IsSession packet new_session new_session-IsSession (omega arith)

-- A session that has sent two packets, numbers 0 and 1, the last with FIN
abbrev first_sent : Session
first_sent = enqueue packet false new_session

abbrev both_sent : Session
both_sent = enqueue packet true first_sent

first_sent-IsWindow : IsWindow first_sent
unfolding new_session in_flight is_empty
first_sent-IsWindow =
    enqueue-IsWindow packet false new_session new_session-IsSession.window (omega arith)

both_sent-IsWindow : IsWindow both_sent
unfolding new_session enqueue in_flight is_empty
both_sent-IsWindow =
    enqueue-IsWindow packet true first_sent (fold_window first_sent-IsWindow) (omega arith)
  where
    fold_window : IsWindow first_sent → IsWindow first_sent
    fold_window w = w

on_ack_example :
    ((0 + 4096 - both_sent.tx_seq_nr_acked) % 4096
        ≤ outstanding both_sent.tx_seq_nr both_sent.tx_seq_nr_acked
      × Acked 0 both_sent (on_ack 0 both_sent))
    ⊎ ((outstanding both_sent.tx_seq_nr both_sent.tx_seq_nr_acked
          < (0 + 4096 - both_sent.tx_seq_nr_acked) % 4096)
        × (on_ack 0 both_sent ≡ both_sent))
unfolding new_session enqueue
on_ack_example = on_ack_lem 0 both_sent both_sent-IsWindow (omega arith) (omega arith) (omega arith)

on_peer_nack-oldest_example :
    (on_peer_nack 0 both_sent).trace
    ≡ both_sent.trace
      ++ map datagram
          (contents both_sent.ring.slots both_sent.ring.read_index (buffered both_sent.ring))
unfolding new_session enqueue
on_peer_nack-oldest_example =
    on_peer_nack-oldest 0 both_sent both_sent-IsWindow (omega arith) (omega arith)

-- Packet 1 is in the buffer, and a NACK of it does not send it.
on_peer_nack-later_example : (on_peer_nack 1 both_sent).trace ≡ both_sent.trace
unfolding new_session enqueue
on_peer_nack-later_example =
    on_peer_nack-later 1 both_sent both_sent-IsWindow (omega arith) (omega arith) (omega arith)

prune_acked-exact_example :
    IsQueue (prune_acked 0 both_sent).ring both_sent.tx_seq_nr 0
    × (buffered (prune_acked 0 both_sent).ring
        ≡ min (buffered both_sent.ring) (outstanding both_sent.tx_seq_nr 0))
unfolding new_session enqueue
prune_acked-exact_example =
    prune_acked-exact 0 both_sent both_sent-IsWindow (omega arith) (omega arith)

pack_data_packet-ok_example :
    pack_data_packet header_bytes data_bytes true first_sent
    ≡ ok (
      data_packet first_sent.tx_seq_nr first_sent.rx_seq_expected header_bytes data_bytes true,
      enqueue
          (data_packet first_sent.tx_seq_nr first_sent.rx_seq_expected header_bytes data_bytes true)
          true
          first_sent,
    )
unfolding new_session enqueue in_flight is_empty
pack_data_packet-ok_example =
    pack_data_packet-ok header_bytes data_bytes true first_sent first_sent-IsWindow (omega arith)
      (omega arith)

seq_between_example :
    (seq_between 4090 3 10 ≡ true) ↔ ((3 + 4096 - 4090) % 4096 ≤ (10 + 4096 - 4090) % 4096)
seq_between_example = seq_between_iff 4090 3 10 (omega arith) (omega arith) (omega arith)

abbrev waiting : Session
waiting = arm_ack_timer both_sent

waiting-IsWaiting : IsWaiting waiting
unfolding arm_ack_timer arm enqueue new_session same_mode
waiting-IsWaiting = record { not_closed = refl; waits = refl; current = refl; reason = inl refl }

waiting-IsWindow : IsWindow waiting
unfolding arm_ack_timer arm enqueue new_session same_mode
waiting-IsWindow = both_sent-IsWindow

fire-IsSilent_example : IsSilent waiting (fire 4 waiting)
unfolding arm_ack_timer arm enqueue new_session same_mode
fire-IsSilent_example =
    fire-IsSilent waiting waiting-IsWaiting refl waiting-IsWindow (omega arith) (omega arith)

abbrev data_header : DataHeader
data_header = record { seq_nr_ack = 4095; flags = 3; hdr_word_count = 15; data_byte_count = 1408 }

unpack_data_header_example :
    unpack_data_header (pack_data_header data_header ++ []) ≡ some data_header
unpack_data_header_example =
    unpack_data_header-pack_data_header data_header [] (omega arith) (omega arith) (omega arith)
      (omega arith)

abbrev discovery : List ℕ
discovery = 0 ∷ 0 ∷ 0xF5 ∷ 0xF5 ∷ 0 ∷ 0 ∷ []

inform_example :
    (process_discovery_packet discovery 0xF5F5 ≡ inform (inform_packet 0xF5F5))
    ↔ ((6 ≤ length discovery) × (byte_at discovery 0 % 16 ≡ 0) × (get_u16 discovery 2 ≡ 0xF5F5))
inform_example = inform_iff discovery 0xF5F5

inform_packet_example :
    (unpack_header (inform_packet 0xF5F5)
      ≡ some (record { packet_type = packet_inform; seq_nr = 1 }))
    × (unpack_disc_header (drop 2 (inform_packet 0xF5F5))
        ≡ some (record { service_id = 0xF5F5; reserved = 0 }))
inform_packet_example = inform_packet_fields 0xF5F5 (omega arith)

-- The peer's packet is given on, and an ACK of its number is sent.
received_test :
    process_data_packet packet new_session
    ≡ ok (
      payload (1 ∷ 2 ∷ 3 ∷ 4 ∷ []),
      send_ack true (record (count_rx new_session) { rx_seq_expected = 1 }),
    )
unfolding new_session process_data_packet receive_header receive_data receive_payload accept ack_if
    unpack_header unpack_data_header on_peer_ack on_ack is_empty has_payload send_ack
received_test = refl

-- A reply of three bytes is one packet with FIN, padded to a word.
send_data_test :
    (send_data data_bytes new_session >>= λ s. ok s.trace)
    ≡ ok (datagram (2 ∷ 0 ∷ 0xFF ∷ 0x3F ∷ 0x10 ∷ 0 ∷ 5 ∷ 6 ∷ 7 ∷ 0 ∷ []) ∷ [])
unfolding new_session send_data handle_transfer transfer_loop transfer_fuel transfer_round in_flight
    is_empty reset_send_state stop_ack_timer send_next pack_data_packet next_size settle
    clear_transfer enqueue update_ack_timer arm_ack_timer arm same_mode has_payload window_full
    data_header_word pack_data_header pack_header data_packet
send_data_test = refl
