-- ===== src/Udprdma/Protocol.antt =====
-- udprdma/protocol.go: the constants, the three headers and the discovery exchange.
-- `Pack` writes into a slice that the caller made; here it returns the bytes that it writes, and the
-- caller puts them in place. An error value is `none` where the caller only tests for it.
pub mod RoundTrip
pub mod Inform
use udpfsd.Common.{
  ℕ, ◌+◌, ◌*◌, ◌/◌, ◌%◌, ◌^◌, bit_or, Option, none, some, List, [], ◌∷◌, ◌++◌, ltb, ◌==◌, not,
  if◌then◌else◌, length, drop, u8, u16, u32, low_bits, shl, shr, put_u16, put_u32, get_u16, get_u32,
}

-- Service_UDPFS
abbrev pub service_udpfs : ℕ
service_udpfs = 0xF5F5

-- Flow control; the timeouts are in milliseconds.
abbrev pub send_window : ℕ
send_window = 8

abbrev pub max_data_payload : ℕ
max_data_payload = 1408

abbrev pub fin_ack_timeout : ℕ
fin_ack_timeout = 500

abbrev pub window_ack_timeout : ℕ
window_ack_timeout = 100

abbrev pub max_retransmits : ℕ
max_retransmits = 4

-- PacketType
abbrev pub packet_discovery : ℕ
packet_discovery = 0

abbrev pub packet_inform : ℕ
packet_inform = 1

abbrev pub packet_data : ℕ
packet_data = 2

-- DataFlags
abbrev pub data_flag_ack : ℕ
data_flag_ack = 1

abbrev pub data_flag_fin : ℕ
data_flag_fin = 2

abbrev pub header_size : ℕ
header_size = 2

abbrev pub disc_header_size : ℕ
disc_header_size = 4

abbrev pub data_header_size : ℕ
data_header_size = 4

pub record Header : Type 0 where
  pub packet_type : ℕ
  pub seq_nr : ℕ

pub record DiscHeader : Type 0 where
  pub service_id : ℕ
  pub reserved : ℕ

pub record DataHeader : Type 0 where
  pub seq_nr_ack : ℕ
  pub flags : ℕ
  pub hdr_word_count : ℕ
  pub data_byte_count : ℕ

unfoldable pub unpack_header : List ℕ → Option Header
unpack_header b =
    if ltb (length b) 2
    then none
    else let val = get_u16 b 0 in
      some (record { packet_type = low_bits val 4; seq_nr = low_bits (shr val 4) 12 })

unfoldable pub pack_header : Header → List ℕ
pack_header h =
    put_u16 (bit_or (u16 (low_bits h.packet_type 4)) (u16 (shl (u16 (low_bits h.seq_nr 12)) 4)))

unfoldable pub unpack_disc_header : List ℕ → Option DiscHeader
unpack_disc_header b =
    if ltb (length b) 4
    then none
    else some (record { service_id = get_u16 b 0; reserved = get_u16 b 2 })

unfoldable pub pack_disc_header : DiscHeader → List ℕ
pack_disc_header d = put_u16 d.service_id ++ put_u16 d.reserved

unfoldable pub unpack_data_header : List ℕ → Option DataHeader
unpack_data_header b =
    if ltb (length b) 4
    then none
    else let val = get_u32 b 0 in
      some (record {
        seq_nr_ack = u16 (low_bits val 12);
        flags = u8 (low_bits (shr val 12) 2);
        hdr_word_count = u8 (low_bits (shr val 14) 4);
        data_byte_count = u16 (low_bits (shr val 18) 14);
      })

-- the 32-bit word of a data header
unfoldable pub data_header_word : DataHeader → ℕ
data_header_word d =
    bit_or
      (bit_or (bit_or (u32 (low_bits d.seq_nr_ack 12)) (u32 (shl (u32 (low_bits d.flags 2)) 12)))
        (u32 (shl (u32 (low_bits d.hdr_word_count 4)) 14)))
      (u32 (shl (u32 (low_bits d.data_byte_count 14)) 18))

unfoldable pub pack_data_header : DataHeader → List ℕ
unfolding data_header_word
pack_data_header d = put_u32 (data_header_word d)

-- The errors of `ProcessDiscoveryPacket`
pub data DiscoveryError : Type 0 where
  invalid_header wrong_packet_type invalid_disc_header wrong_service : DiscoveryError

pub data DiscoveryResult : Type 0 where
  inform : List ℕ → DiscoveryResult
  refused : DiscoveryError → DiscoveryResult

unfoldable pub inform_packet : ℕ → List ℕ
unfolding pack_header pack_disc_header
inform_packet service =
    pack_header (record { packet_type = packet_inform; seq_nr = 1 })
    ++ pack_disc_header (record { service_id = service; reserved = 0 })

check_service : ℕ → Option DiscHeader → DiscoveryResult
unfolding inform_packet
check_service expected none = refused invalid_disc_header
check_service expected (some disc) =
    if disc.service_id == expected then inform (inform_packet expected) else refused wrong_service

check_discovery : List ℕ → ℕ → Option Header → DiscoveryResult
unfolding check_service unpack_disc_header
check_discovery b expected none = refused invalid_header
check_discovery b expected (some hdr) =
    if hdr.packet_type == packet_discovery
    then check_service expected (unpack_disc_header (drop 2 b))
    else refused wrong_packet_type

unfoldable pub process_discovery_packet : List ℕ → ℕ → DiscoveryResult
unfolding check_discovery unpack_header
process_discovery_packet b expected = check_discovery b expected (unpack_header b)
