-- ===== src/Udprdma/Transfer/Bytes.antt =====
-- udprdma/session_tx.go: the packets of a transfer carry its header and its data, in order.
use udpfsd.Common.{
  ℕ, ◌-◌, ◌%◌, ◌<◌, ◌≡◌, refl, List, [], ◌∷◌, ◌++◌, none, some, length, drop, replicate, Bool, true,
  false, if◌then◌else◌, ◌==◌,
}
use udpfsd.Udprdma.Protocol.{pack_header, pack_data_header}
use udpfsd.Udprdma.Session.{Session, Transfer, clear_transfer}
use udpfsd.Udprdma.AckTimer.{has_payload}
use udpfsd.Udprdma.Transmit.{data_packet, settle, pad4}

-- What a packet carries behind its six bytes of headers, and what the packets carry together
abbrev pub body : List ℕ → List ℕ
body pkt = drop 6 pkt

unfoldable pub bodies : List (List ℕ) → List ℕ
bodies [] = []
bodies (pkt ∷ pkts) = body pkt ++ bodies pkts

-- What a transfer has still to send
unfoldable pub unsent : Transfer → List ℕ
unsent t = elim t.payload [
  | none ↦ []
  | some bytes ↦ (if t.offset == 0 then t.header else []) ++ drop t.offset bytes
]

abbrev pub zeros : ℕ → List ℕ
zeros n = replicate n 0

-- Chunks of whole words, so that only the last packet can need padding, and a header whose number of
-- words fits the four bits that carry it
pub record IsAligned (t : Transfer) : Type 0 where
  pub chunk : t.max_chunk % 4 ≡ 0
  pub header : length t.header % 4 ≡ 0
  pub words : length t.header < 64

-- A round sends the next bytes, padded by fewer than four zeros; and by none, if more is to be sent.
pub record Carries (s : Transfer) (pkt : List ℕ) (t : Transfer) : Type 0 where
  pub padding : ℕ
  pub short : padding < 4
  pub same : body pkt ++ unsent t ≡ unsent s ++ zeros padding
  pub whole : has_payload t ≡ true → padding ≡ 0

pub body-data_packet :
    (tx rx : ℕ) (header bytes : List ℕ) (fin : Bool)
    → body (data_packet tx rx header bytes fin)
      ≡ header ++ (bytes ++ zeros (pad4 (length bytes) - length bytes))
unfolding data_packet pack_header pack_data_header
body-data_packet tx rx header bytes fin = refl

pub unsent-some :
    (t : Transfer) (bytes : List ℕ)
    → t.payload ≡ some bytes
    → unsent t ≡ (if t.offset == 0 then t.header else []) ++ drop t.offset bytes
unfolding unsent
unsent-some t bytes p = rw p

pub unsent-settle :
    (n : ℕ) (fin : Bool) (s : Session) (bytes : List ℕ)
    → s.transfer.payload ≡ some bytes
    → unsent (settle n fin s).transfer
      ≡ (if fin then [] else (if n == 0 then s.transfer.header else []) ++ drop n bytes)
unfolding unsent settle clear_transfer
unsent-settle n true s bytes p = refl
unsent-settle n false s bytes p = rw p

pub has_payload-settle :
    (n : ℕ) (fin : Bool) (s : Session) → has_payload (settle n fin s).transfer ≡ true → fin ≡ false
unfolding settle clear_transfer has_payload
has_payload-settle n true s h = cc
has_payload-settle n false s h = refl
