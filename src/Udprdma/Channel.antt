-- ===== src/Udprdma/Channel.antt =====
-- udprdma/: what one session sends, read by another: packDataPacket of session_tx.go against
-- ProcessDataPacket of session_rx.go.
pub mod Numbers
use udpfsd.Common.{
  ℕ, ◌+◌, ◌-◌, ◌*◌, ◌/◌, ◌%◌, ◌<◌, ◌≤◌, ◌≡◌, ◌≢◌, inl, inr, refl, sym, ap, ◌∙◌, arith, List, [],
  ◌∷◌, ◌++◌, Bool, true, false, some, if◌then◌else◌, length, take, drop, Outcome, ok, ◌>>=◌,
  low_bits, sub16, u8, u16, bit_or, Returns, Returns-ok, Returns-bind, length-append,
  length-replicate, take_all, append-nil, append_assoc, ltb, length-take,
}
use udpfsd.Udprdma.Protocol.{
  DataHeader, pack_header, pack_data_header, packet_data, data_flag_ack, data_flag_fin,
}
use udpfsd.Udprdma.Protocol.RoundTrip.{
  unpack_header-pack_header, unpack_data_header-pack_data_header,
}
use udpfsd.Udprdma.Session.{Session}
use udpfsd.Udprdma.Transmit.{data_packet, pad4}
use udpfsd.Udprdma.Receive.{Received, nothing, payload, invalid, process_data_packet, payload_size}
use udpfsd.Udprdma.Receive.Delivery.{
  IsData, size, Expects, Reception, rejected, acked, nacked, delivered, repeated, unexpected,
}
use udpfsd.Udprdma.Receive.Cases.{process_data_packet-Reception}
use udpfsd.Udprdma.Transfer.Bytes.{body, bodies, zeros, body-data_packet}

-- The data header that `packDataPacket` writes
abbrev written : ℕ → List ℕ → List ℕ → Bool → DataHeader
written rx header bytes fin = record {
  seq_nr_ack = low_bits (sub16 rx 1) 12;
  flags = if fin then bit_or data_flag_ack data_flag_fin else data_flag_ack;
  hdr_word_count = u8 (length header / 4);
  data_byte_count = u16 (pad4 (length bytes));
}

-- A packet of this number, whose payload is all that follows the headers
pub record IsReadable (seq : ℕ) (pkt : List ℕ) : Type 0 where
  pub header : DataHeader
  pub is_data : IsData pkt seq header
  pub whole : size pkt header ≡ length (body pkt)
  pub filled : 0 < length (body pkt)
  pub long : 6 ≤ length pkt

flags-lt : (fin : Bool) → (if fin then bit_or data_flag_ack data_flag_fin else data_flag_ack) < 4
flags-lt true = omega arith
flags-lt false = omega arith

data_packet-IsData :
    (tx rx : ℕ) (header bytes : List ℕ) (fin : Bool)
    → tx < 4096
    → length header < 64
    → length bytes < 4096
    → IsData (data_packet tx rx header bytes fin) tx (written rx header bytes fin)
unfolding data_packet pack_header pack_data_header
data_packet-IsData tx rx header bytes fin h few short = record {
  header =
      unpack_header-pack_header (record { packet_type = packet_data; seq_nr = tx }) _ (omega arith)
        h;
  fields =
      unpack_data_header-pack_data_header (written rx header bytes fin) [] (omega arith)
        (flags-lt fin) (omega arith) (omega arith);
}

length-body :
    (tx rx : ℕ) (header bytes : List ℕ) (fin : Bool)
    → length (body (data_packet tx rx header bytes fin)) ≡ length header + pad4 (length bytes)
length-body tx rx header bytes fin =
    rw (body-data_packet, length-append, length-append, length-replicate) (omega arith)

data_packet-length :
    (tx rx : ℕ) (header bytes : List ℕ) (fin : Bool)
    → length (data_packet tx rx header bytes fin)
      ≡ 6 + length (body (data_packet tx rx header bytes fin))
unfolding data_packet pack_header pack_data_header
data_packet-length tx rx header bytes fin = omega arith

-- The packets that are sent can be read.
pub data_packet-IsReadable :
    (tx rx : ℕ) (header bytes : List ℕ) (fin : Bool)
    → tx < 4096
    → length header % 4 ≡ 0
    → length header < 64
    → length bytes < 4096
    → 0 < length header + length bytes
    → IsReadable tx (data_packet tx rx header bytes fin)
data_packet-IsReadable tx rx header bytes fin h words few short filled = record {
  header = written rx header bytes fin;
  is_data = data_packet-IsData tx rx header bytes fin h few short;
  whole = ground (arith, length-body tx rx header bytes fin);
  filled = omega (arith, length-body tx rx header bytes fin);
  long = omega (arith, data_packet-length tx rx header bytes fin);
}

-- What a session gets of a packet that it expects
record Gets (pkt : List ℕ) (next : ℕ) (r : Received × Session) : Type 0 where
  all : r.0 ≡ payload (body pkt)
  expects : Expects next r.1

-- The packet has one number and one data header.
same_data :
    {pkt : List ℕ} {m n : ℕ} {g h : DataHeader}
    → IsData pkt m g
    → IsData pkt n h
    → (m ≡ n) × (g ≡ h)
same_data c d =
    (let a = c.header in let b = d.header in cc, let a = c.fields in let b = d.fields in cc)

Gets-Reception :
    {pkt : List ℕ} {seq : ℕ} {s : Session} (d : IsReadable seq pkt) {r : Received × Session}
    → s.rx_seq_expected ≡ seq
    → Reception pkt s r
    → Gets pkt ((seq + 1) % 4096) r
Gets-Reception d e (rejected never) = absurd (never _ _ d.is_data)
Gets-Reception {pkt} d e (acked {h = h} c empty flag ack x) =
    let size_of : size pkt h ≡ size pkt d.header = ap (size pkt) (same_data c d.is_data).1 in
    absurd (omega (arith, empty, size_of, d.whole, d.filled))
Gets-Reception {pkt} d e (nacked {h = h} c empty flag nack x) =
    let size_of : size pkt h ≡ size pkt d.header = ap (size pkt) (same_data c d.is_data).1 in
    absurd (omega (arith, empty, size_of, d.whole, d.filled))
Gets-Reception {pkt} d e (delivered {seq = m} {h = h} c filled why ack x) =
    let (same_seq, same_header) = same_data c d.is_data in
    record {
      all = ap payload (
          ap (λ k. take k (body pkt)) (ap (size pkt) same_header ∙ d.whole)
          ∙ take_all (length (body pkt)) (body pkt) (omega arith));
      expects = record {
        session = x.session;
        number = x.number ∙ ap (λ k. (k + 1) % 4096) same_seq;
      };
    }
Gets-Reception d e (repeated c filled before ack nack x) =
    absurd (omega (arith, before, e, (same_data c d.is_data).0))
Gets-Reception d e (unexpected c filled other away lost ack x) =
    absurd (other ((same_data c d.is_data).0 ∙ sym e))

-- A packet of the expected number is delivered as a whole.
process_data_packet-Gets :
    {pkt : List ℕ} {seq : ℕ} (s : Session)
    → IsReadable seq pkt
    → Expects seq s
    → Returns (Gets pkt ((seq + 1) % 4096)) (process_data_packet pkt s)
process_data_packet-Gets {pkt} s d x =
    let r = process_data_packet-Reception pkt s x.session d.long in
    record { value = r.value; result = r.result; holds = Gets-Reception d x.number r.holds }

-- Packets with numbers that follow each other from `m` up to before `n`
pub data Numbered : ℕ → List (List ℕ) → ℕ → Type 0 where
  no_more : {n : ℕ} → Numbered n [] n
  and_then :
      {m n : ℕ} {pkt : List ℕ} {pkts : List (List ℕ)}
      → IsReadable m pkt
      → Numbered ((m + 1) % 4096) pkts n
      → Numbered m (pkt ∷ pkts) n

pub Numbered-append :
    {l m n : ℕ} {ps qs : List (List ℕ)}
    → Numbered l ps m
    → Numbered m qs n
    → Numbered l (ps ++ qs) n
Numbered-append no_more q = q
Numbered-append (and_then r p) q = and_then r (Numbered-append p q)

abbrev pub bytes_of : Received → List ℕ
bytes_of (payload bytes) = bytes
bytes_of _ = []

-- A session is given packets in turn: what it passes on, and its state
unfoldable pub deliver_all : List (List ℕ) → Session → Outcome (List ℕ × Session)
deliver_all [] s = ok ([], s)
deliver_all (pkt ∷ pkts) s = process_data_packet pkt s >>= λ (r, s1).
    deliver_all pkts s1 >>= λ (rest, s2). ok (bytes_of r ++ rest, s2)

-- All that the packets carry was passed on.
pub record GotAll (got : List ℕ) (next : ℕ) (r : List ℕ × Session) : Type 0 where
  pub all : r.0 ≡ got
  pub expects : Expects next r.1

pub deliver_all-Numbered :
    {m n : ℕ} {pkts : List (List ℕ)} (s : Session)
    → Numbered m pkts n
    → Expects m s
    → Returns (GotAll (bodies pkts) n) (deliver_all pkts s)
unfolding deliver_all bodies
deliver_all-Numbered s no_more x = Returns-ok _ (record { all = refl; expects = x })
deliver_all-Numbered {m} {n} s (and_then {pkt = pkt} {pkts = pkts} d ds) x =
    Returns-bind {P = Gets pkt ((m + 1) % 4096)} _ _ (process_data_packet-Gets s d x) (λ r g.
      Returns-bind {P = GotAll (bodies pkts) n} _ _ (deliver_all-Numbered r.1 ds g.expects)
        (λ u a. Returns-ok _ (record { all = rw (g.all, a.all) refl; expects = a.expects })))
