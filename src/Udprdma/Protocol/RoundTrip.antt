-- ===== src/Udprdma/Protocol/RoundTrip.antt =====
-- udprdma/protocol.go: what the headers carry comes back when they are read.
use udpfsd.Common.{
  ℕ, ◌+◌, ◌*◌, ◌%◌, ◌^◌, ◌<◌, ◌≡◌, arith, some, List, ◌++◌, low_bits, shl, u16, bit_or, bit_or-shl,
  get_u32, put_u32,
}
use udpfsd.Udprdma.Protocol.{
  Header, DiscHeader, DataHeader, pack_header, unpack_header, pack_disc_header, unpack_disc_header,
  pack_data_header, unpack_data_header, data_header_word,
}

-- Two fields that do not meet are joined by a sum.
or_fields : (k : ℕ) {x y : ℕ} (a b : ℕ) → x ≡ a → y ≡ shl b k → a < 2 ^ k → bit_or x y ≡ a + shl b k
or_fields k a b p q h = rw (p, q) (bit_or-shl k a b h)

-- The header's word is the sum of its two fields.
pub header_word-sum :
    (t n : ℕ)
    → bit_or (u16 (low_bits t 4)) (u16 (shl (u16 (low_bits n 12)) 4)) ≡ t % 16 + n % 4096 * 16
header_word-sum t n = or_fields 4 (t % 16) (n % 4096) (omega arith) (omega arith) (omega arith)

-- The word of a data header is the sum of its four fields.
pub data_header_word-sum :
    (d : DataHeader)
    → data_header_word d
      ≡ d.seq_nr_ack % 4096
        + d.flags % 4 * 4096
        + d.hdr_word_count % 16 * 16384
        + d.data_byte_count % 16384 * 262144
unfolding data_header_word
data_header_word-sum d =
    or_fields 18 _ (d.data_byte_count % 16384)
      (or_fields 14 _ (d.hdr_word_count % 16)
        (or_fields 12 (d.seq_nr_ack % 4096) (d.flags % 4) (omega arith) (omega arith) (omega arith))
        (omega arith) (omega arith))
      (omega arith) (omega arith)

get_u32-put_u32 : (w : ℕ) (rest : List ℕ) → w < 2 ^ 32 → get_u32 (put_u32 w ++ rest) 0 ≡ w
get_u32-put_u32 w rest h = omega arith

-- A header whose fields fit their 4 and 12 bits is read back, whatever follows it.
pub unpack_header-pack_header :
    (h : Header) (rest : List ℕ)
    → h.packet_type < 16
    → h.seq_nr < 4096
    → unpack_header (pack_header h ++ rest) ≡ some h
unfolding unpack_header pack_header
unpack_header-pack_header h rest p q = ground (arith, header_word-sum h.packet_type h.seq_nr)

-- A discovery header of two 16-bit fields is read back, whatever follows it.
pub unpack_disc_header-pack_disc_header :
    (d : DiscHeader) (rest : List ℕ)
    → d.service_id < 2 ^ 16
    → d.reserved < 2 ^ 16
    → unpack_disc_header (pack_disc_header d ++ rest) ≡ some d
unfolding unpack_disc_header pack_disc_header
unpack_disc_header-pack_disc_header d rest p q = ground arith

-- A data header whose fields fit their 12, 2, 4 and 14 bits is read back, whatever follows it.
pub unpack_data_header-pack_data_header :
    (d : DataHeader) (rest : List ℕ)
    → d.seq_nr_ack < 4096
    → d.flags < 4
    → d.hdr_word_count < 16
    → d.data_byte_count < 16384
    → unpack_data_header (pack_data_header d ++ rest) ≡ some d
unfolding unpack_data_header pack_data_header
unpack_data_header-pack_data_header d rest p q r s =
    let w : ℕ = data_header_word d in
    let e : w
        ≡ d.seq_nr_ack + d.flags * 4096 + d.hdr_word_count * 16384 + d.data_byte_count * 262144 =
      omega (arith, data_header_word-sum d) in
    rw (get_u32-put_u32 w rest (omega arith)) (ground arith)
