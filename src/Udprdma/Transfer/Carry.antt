-- ===== src/Udprdma/Transfer/Carry.antt =====
-- udprdma/session_tx.go: what one round of the loop sends of a transfer.
use udpfsd.Common.{
  ℕ, ◌+◌, ◌-◌, ◌%◌, ◌<◌, ◌≤◌, ◌≡◌, refl, ap, ◌∙◌, arith, List, [], ◌∷◌, ◌++◌, some, length, take,
  drop, Bool, true, false, if◌then◌else◌, leb, ◌==◌, Bool-cases, inl, inr, append-nil, append_assoc,
  take-append-drop, drop-drop, take_all, length-take, length-drop, leb→le, leb→lt,
}
use udpfsd.Udprdma.Session.{Session, Transfer, clear_transfer}
use udpfsd.Udprdma.AckTimer.{has_payload}
use udpfsd.Udprdma.Transmit.{enqueue, first_size, first_data_max, next_size, settle, pad4}
use udpfsd.Udprdma.Transfer.{IsSendable, Round, first, next, first_packet, next_packet, next_end}
use udpfsd.Udprdma.Transfer.Total.{first_size-pos, next_size-pos, payload-enqueue}
use udpfsd.Udprdma.Transfer.Bytes.{
  body, unsent, zeros, IsAligned, Carries, body-data_packet, unsent-some, unsent-settle,
  has_payload-settle,
}

length_zero : (xs : List ℕ) → length xs ≡ 0 → xs ≡ []
length_zero [] h = refl
length_zero (x ∷ xs) h = absurd (omega arith)

-- The last piece of `rest`, and one before it
last_piece :
    (lead rest z : List ℕ) (n : ℕ)
    → length rest ≤ n
    → (lead ++ (take n rest ++ z)) ++ [] ≡ (lead ++ rest) ++ z
last_piece lead rest z n h = rw (take_all n rest h) (simp (append-nil, append_assoc))

inner_piece :
    (lead rest : List ℕ) (n : ℕ)
    → (lead ++ (take n rest ++ [])) ++ drop n rest ≡ (lead ++ rest) ++ []
inner_piece lead rest n = simp (append-nil, append_assoc, take-append-drop)

-- No padding is needed for a whole number of words.
no_padding :
    (n : ℕ) (rest : List ℕ)
    → n ≤ length rest
    → n % 4 ≡ 0
    → zeros (pad4 (length (take n rest)) - length (take n rest)) ≡ []
no_padding n rest h e =
    ap zeros {x = pad4 (length (take n rest)) - length (take n rest)} {y = 0}
      (omega (arith, length-take n rest))

first_size-aligned :
    (t : Transfer) (bytes : List ℕ)
    → IsAligned t
    → leb (length bytes) (first_size t bytes) ≡ false
    → first_size t bytes % 4 ≡ 0
unfolding first_size first_data_max
first_size-aligned t bytes a h = ground (arith, a.chunk, a.header)

next_size-aligned :
    (t : Transfer) (bytes : List ℕ)
    → IsAligned t
    → leb (length bytes) (t.offset + next_size t bytes) ≡ false
    → next_size t bytes % 4 ≡ 0
unfolding next_size
next_size-aligned t bytes a h = ground (arith, a.chunk)

-- What the first packet and the rest of the transfer carry, on either outcome of the round
module _ (s : Session) (bytes : List ℕ) (p : s.transfer.payload ≡ some bytes)
    (o : s.transfer.offset ≡ 0) (a : IsAligned s.transfer) (good : IsSendable s.transfer) where
  first_carries :
      (b : Bool)
      → leb (length bytes) (first_size s.transfer bytes) ≡ b
      → let n = first_size s.transfer bytes in
        let k = pad4 (length (take n bytes)) - length (take n bytes) in
        (body (first_packet bytes s)
            ++ (if b then [] else (if n == 0 then s.transfer.header else []) ++ drop n bytes)
          ≡ (s.transfer.header ++ bytes) ++ zeros k)
        × (b ≡ false → k ≡ 0)
  first_carries true e =
      (rw body-data_packet (last_piece s.transfer.header bytes _ _ (leb→le _ _ e)), λ f. cc)
  first_carries false e =
      let n = first_size s.transfer bytes in
      let aligned = first_size-aligned s.transfer bytes a e in
      let some_sent : (n == 0) ≡ false =
        ground (arith, first_size-pos s.transfer bytes (good.chunks bytes p) e) in
      let z = no_padding n bytes (omega (arith, leb→lt _ _ e)) aligned in
      (
        rw (body-data_packet, some_sent, z) (inner_piece s.transfer.header bytes n),
        λ f. omega (arith, length-take n bytes, aligned, leb→lt _ _ e),
      )

-- The same of a later packet: `lead` is nothing, since no header is left to send.
module _ (s : Session) (bytes : List ℕ) (p : s.transfer.payload ≡ some bytes)
    (a : IsAligned s.transfer) (good : IsSendable s.transfer) where
  next_carries :
      (b : Bool)
      → leb (length bytes) (next_end bytes s) ≡ b
      → let n = next_size s.transfer bytes in
        let rest = drop s.transfer.offset bytes in
        let k = pad4 (length (take n rest)) - length (take n rest) in
        (body (next_packet bytes s)
            ++ (if b
                then []
                else (if next_end bytes s == 0 then s.transfer.header else [])
                  ++ drop (next_end bytes s) bytes)
          ≡ rest ++ zeros k)
        × (b ≡ false → k ≡ 0)
  next_carries true e =
      let n = next_size s.transfer bytes in
      let off = s.transfer.offset in
      let long : length (drop off bytes) ≤ n = omega (arith, length-drop off bytes, leb→le _ _ e) in
      (rw body-data_packet (last_piece [] (drop off bytes) _ n long), λ f. cc)
  next_carries false e =
      let n = next_size s.transfer bytes in
      let off = s.transfer.offset in
      let rest = drop off bytes in
      let aligned = next_size-aligned s.transfer bytes a e in
      let some_sent : (next_end bytes s == 0) ≡ false =
        ground (arith, next_size-pos s.transfer bytes (good.chunks bytes p) e) in
      let short : n ≤ length rest = omega (arith, length-drop off bytes, leb→lt _ _ e) in
      let z = no_padding n rest short aligned in
      (
        rw (body-data_packet, some_sent, z, ← drop-drop n off bytes) (inner_piece [] rest n),
        λ f. omega (arith, length-take n rest, aligned, short),
      )

pad4-lt : (n : ℕ) → pad4 n - n < 4
pad4-lt n = omega arith

pub header_spent :
    (t : Transfer)
    → (t.offset ≡ 0 → length t.header ≡ 0)
    → (if t.offset == 0 then t.header else []) ≡ []
header_spent t h = elim (Bool-cases (t.offset == 0)) [
  | inl start ↦ rw start (length_zero t.header (h (ground arith)))
  | inr later ↦ rw later
]

unsent-enqueue :
    (pkt : List ℕ) (fin : Bool) (s : Session)
    → unsent (enqueue pkt fin s).transfer ≡ unsent s.transfer
unfolding enqueue
unsent-enqueue pkt fin s = refl

has_payload-enqueue :
    (pkt : List ℕ) (fin : Bool) (s : Session)
    → has_payload (enqueue pkt fin s).transfer ≡ has_payload s.transfer
unfolding enqueue
has_payload-enqueue pkt fin s = refl

header-enqueue :
    (pkt : List ℕ) (fin : Bool) (s : Session)
    → (enqueue pkt fin s).transfer.header ≡ s.transfer.header
unfolding enqueue
header-enqueue pkt fin s = refl

-- What was unsent before a first packet, and before a later one
unsent-first :
    (t : Transfer) (bytes : List ℕ)
    → t.payload ≡ some bytes
    → t.offset ≡ 0
    → unsent t ≡ t.header ++ bytes
unsent-first t bytes p o = rw (unsent-some t bytes p, o)

unsent-next :
    (t : Transfer) (bytes : List ℕ)
    → t.payload ≡ some bytes
    → (t.offset ≡ 0 → length t.header ≡ 0)
    → unsent t ≡ drop t.offset bytes
unsent-next t bytes p h = rw (unsent-some t bytes p, header_spent t h)

pub Round-Carries :
    {s t : Session} {pkt : List ℕ}
    → IsAligned s.transfer
    → IsSendable s.transfer
    → Round s pkt t
    → Carries s.transfer pkt t.transfer
Round-Carries {s} a good (first bytes {pkt} p w o h e f) =
    let n = first_size s.transfer bytes in
    let fin = leb (length bytes) n in
    let c = first_carries s bytes p o a good fin refl in
    let s1 = enqueue pkt fin s in
    let left = unsent-settle n fin s1 bytes (payload-enqueue pkt fin s ∙ p) in
    rw f (record {
      padding = pad4 (length (take n bytes)) - length (take n bytes);
      short = pad4-lt (length (take n bytes));
      same = rw (left, header-enqueue, e, unsent-first s.transfer bytes p o) c.0;
      whole = λ more. c.1 (has_payload-settle n fin s1 more);
    })
Round-Carries {s} a good (next bytes {pkt} p w o h e f) =
    let n = next_size s.transfer bytes in
    let end = next_end bytes s in
    let fin = leb (length bytes) end in
    let rest = drop s.transfer.offset bytes in
    let c = next_carries s bytes p a good fin refl in
    let left = unsent-enqueue pkt fin (settle end fin s) ∙ unsent-settle end fin s bytes p in
    rw f (record {
      padding = pad4 (length (take n rest)) - length (take n rest);
      short = pad4-lt (length (take n rest));
      same = rw (left, e, unsent-next s.transfer bytes p h) c.0;
      whole = λ more. c.1 (has_payload-settle end fin s (rw has_payload-enqueue at more));
    })

settle-IsAligned :
    (n : ℕ) (fin : Bool) (s : Session) → IsAligned s.transfer → IsAligned (settle n fin s).transfer
unfolding settle clear_transfer
settle-IsAligned n true s a = record { chunk = a.chunk; header = omega arith; words = omega arith }
settle-IsAligned n false s a = record { chunk = a.chunk; header = a.header; words = a.words }

enqueue-IsAligned :
    (pkt : List ℕ) (fin : Bool) (s : Session)
    → IsAligned s.transfer
    → IsAligned (enqueue pkt fin s).transfer
unfolding enqueue
enqueue-IsAligned pkt fin s a = a

pub Round-IsAligned :
    {s t : Session} {pkt : List ℕ} → Round s pkt t → IsAligned s.transfer → IsAligned t.transfer
Round-IsAligned {s} (first bytes {pkt} p w o h e f) a =
    rw f (settle-IsAligned _ _ _ (enqueue-IsAligned pkt _ s a))
Round-IsAligned {s} (next bytes {pkt} p w o h e f) a =
    rw f (enqueue-IsAligned pkt _ _ (settle-IsAligned _ _ s a))

-- A transfer that is about to send a packet has something to send.
pub Round-has_payload :
    {s t : Session} {pkt : List ℕ} → Round s pkt t → has_payload s.transfer ≡ true
unfolding has_payload
Round-has_payload (first bytes p w o h e f) = rw p
Round-has_payload (next bytes p w o h e f) = rw p
