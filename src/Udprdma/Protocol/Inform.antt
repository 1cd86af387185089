-- ===== src/Udprdma/Protocol/Inform.antt =====
-- udprdma/protocol.go: which discovery packets are answered, and with what.
use udpfsd.Common.{
  ℕ, ◌%◌, ◌^◌, ◌<◌, ◌≤◌, ◌≡◌, ◌↔◌, arith, some, List, [], ◌∷◌, length, drop, byte_at, get_u16,
  append-nil,
}
use udpfsd.Udprdma.Protocol.{
  unpack_header, unpack_disc_header, inform, inform_packet, process_discovery_packet, packet_inform,
}
use udpfsd.Udprdma.Protocol.RoundTrip.{
  unpack_header-pack_header, unpack_disc_header-pack_disc_header,
}

-- A packet is answered exactly when it holds six bytes, the low four bits of its first byte are the
-- discovery type 0, and its bytes 2 and 3 name the service.
pub inform_iff :
    (b : List ℕ) (service : ℕ)
    → (process_discovery_packet b service ≡ inform (inform_packet service))
      ↔ ((6 ≤ length b) × (byte_at b 0 % 16 ≡ 0) × (get_u16 b 2 ≡ service))
unfolding process_discovery_packet
inform_iff [] service = (ground arith, ground arith)
inform_iff (a ∷ []) service = (ground arith, ground arith)
inform_iff (a ∷ b ∷ []) service = (ground arith, ground arith)
inform_iff (a ∷ b ∷ c ∷ []) service = (ground arith, ground arith)
inform_iff (a ∷ b ∷ c ∷ d ∷ r) service = (ground arith, ground arith)

-- The answer reads back as an INFORM packet with sequence number 1 for that service.
pub inform_packet_fields :
    (service : ℕ)
    → service < 2 ^ 16
    → (unpack_header (inform_packet service)
        ≡ some (record { packet_type = packet_inform; seq_nr = 1 }))
      × (unpack_disc_header (drop 2 (inform_packet service))
          ≡ some (record { service_id = service; reserved = 0 }))
unfolding inform_packet
inform_packet_fields service h = (
  unpack_header-pack_header _ _ (omega arith) (omega arith),
  rw (append-nil) at (
      unpack_disc_header-pack_disc_header (record { service_id = service; reserved = 0 }) [] h
        (omega arith)),
)
