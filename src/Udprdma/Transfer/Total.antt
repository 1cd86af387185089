-- ===== src/Udprdma/Transfer/Total.antt =====
-- udprdma/session_tx.go: the loop of `handleTransfer` ends on every sendable transfer, without a panic.
use udpfsd.Common.{
  ℕ, zero, suc, ◌+◌, ◌-◌, ◌<◌, ◌≡◌, refl, arith, ap, ◌∙◌, sym, subst, List, [], ◌∷◌, ◌++◌, Option,
  none, some, length, Bool, true, false, if◌then◌else◌, ltb, leb, ◌==◌, ◌&&◌, Outcome, ok,
  Bool-cases, Option-cases, inl, inr, append-nil, append_assoc, leb→le, leb→lt,
}
use udpfsd.Udprdma.Session.{Session, Transfer, in_flight, clear_transfer}
use udpfsd.Udprdma.Transmit.{
  transfer_loop, transfer_round, first_size, first_data_max, next_size, settle, enqueue,
}
use udpfsd.Udprdma.Window.Pack.{IsWindow}
use udpfsd.Udprdma.Transfer.{
  Round, first, next, Rounds, done, more, Ends, idle, full, used, IsSendable, next_end,
}
use udpfsd.Udprdma.Transfer.Step.{Round-IsWindow, Round-IsSendable, send_first-ok, send_next-ok}

-- A bound on the rounds that a transfer takes
unfoldable pub remaining : Transfer → ℕ
remaining t = elim t.payload [ none ↦ 0 | some bytes ↦ length bytes - t.offset + 1 ]

-- The loop came to an end: the packets that it sent, the state when it stopped, and the state after.
pub record Looped (s : Session) (batch : List (List ℕ)) (out : Outcome (List (List ℕ) × Session))
    : Type 0 where
  pub pkts : List (List ℕ)
  pub last : Session
  pub after : Session
  pub result : out ≡ ok (batch ++ pkts, after)
  pub rounds : Rounds s pkts last
  pub ends : Ends last after

Looped-end : (s t : Session) (batch : List (List ℕ)) → Ends s t → Looped s batch (ok (batch, t))
Looped-end s t batch e = record {
  pkts = [];
  last = s;
  after = t;
  result = rw append-nil;
  rounds = done;
  ends = e;
}

Looped-more :
    {s t : Session} {pkt : List ℕ} {batch : List (List ℕ)} {out : Outcome (List (List ℕ) × Session)}
    → Round s pkt t
    → Looped t (batch ++ (pkt ∷ [])) out
    → Looped s batch out
Looped-more {s} {t} {pkt} {batch} r l = record {
  pkts = pkt ∷ l.pkts;
  last = l.last;
  after = l.after;
  result = l.result ∙ ap (λ b. ok (b, l.after)) (append_assoc batch (pkt ∷ []) l.pkts);
  rounds = more r l.rounds;
  ends = l.ends;
}

pub remaining-some :
    (t : Transfer) (bytes : List ℕ)
    → t.payload ≡ some bytes
    → remaining t ≡ length bytes - t.offset + 1
unfolding remaining
remaining-some t bytes p = rw p

remaining-settle :
    (n : ℕ) (fin : Bool) (s : Session) (bytes : List ℕ)
    → s.transfer.payload ≡ some bytes
    → remaining (settle n fin s).transfer ≡ (if fin then 0 else length bytes - n + 1)
unfolding remaining settle clear_transfer
remaining-settle n true s bytes p = refl
remaining-settle n false s bytes p = rw p

remaining-enqueue :
    (pkt : List ℕ) (fin : Bool) (s : Session)
    → remaining (enqueue pkt fin s).transfer ≡ remaining s.transfer
unfolding enqueue
remaining-enqueue pkt fin s = refl

pub payload-enqueue :
    (pkt : List ℕ) (fin : Bool) (s : Session)
    → (enqueue pkt fin s).transfer.payload ≡ s.transfer.payload
unfolding enqueue
payload-enqueue pkt fin s = refl

-- A chunk that does not finish the transfer is not empty.
pub first_size-pos :
    (t : Transfer) (bytes : List ℕ)
    → (0 < length bytes → 0 < t.max_chunk)
    → leb (length bytes) (first_size t bytes) ≡ false
    → 0 < first_size t bytes
unfolding first_size first_data_max
first_size-pos t bytes h e = ground arith

pub next_size-pos :
    (t : Transfer) (bytes : List ℕ)
    → (0 < length bytes → 0 < t.max_chunk)
    → leb (length bytes) (t.offset + next_size t bytes) ≡ false
    → 0 < next_size t bytes
unfolding next_size
next_size-pos t bytes h e = ground arith

-- A round leaves less to send.
pub Round-remaining :
    {s t : Session} {pkt : List ℕ}
    → IsSendable s.transfer
    → Round s pkt t
    → remaining t.transfer < remaining s.transfer
Round-remaining {s} good (first bytes {pkt} p w o h e f) =
    let n = first_size s.transfer bytes in
    let fin = leb (length bytes) n in
    let left = remaining-settle n fin (enqueue pkt fin s) bytes (payload-enqueue pkt fin s ∙ p) in
    rw (f, left, remaining-some s.transfer bytes p, o)
      (ground (arith, first_size-pos s.transfer bytes (good.chunks bytes p)))
Round-remaining {s} good (next bytes {pkt} p w o h e f) =
    let end = next_end bytes s in
    let fin = leb (length bytes) end in
    rw (f, remaining-enqueue, remaining-settle end fin s bytes p, remaining-some s.transfer bytes p)
      (ground (arith, next_size-pos s.transfer bytes (good.chunks bytes p)))

pub transfer_loop-Looped :
    (fuel : ℕ) (batch : List (List ℕ)) (s : Session)
    → IsWindow s
    → IsSendable s.transfer
    → remaining s.transfer < fuel
    → Looped s batch (transfer_loop fuel batch s)
unfolding transfer_loop transfer_round
transfer_loop-Looped zero batch s q t lt = absurd (omega arith)
transfer_loop-Looped (suc fuel) batch s q t lt = elim (Option-cases s.transfer.payload) [
  | inl e ↦ turn none e (Looped-end s s batch (idle e refl))
  | inr (bytes, e) ↦ turn (some bytes) e (elim (Bool-cases (leb 8 (in_flight s))) [
    | inl closed ↦ rw closed (Looped-end s s batch (full (leb→le 8 (in_flight s) closed) refl))
    | inr room ↦ elim (Bool-cases (s.transfer.offset == 0 && ltb 0 (length s.transfer.header))) [
      | inl start ↦
          let w : in_flight s < 8 = leb→lt 8 (in_flight s) room in
          let at : (s.transfer.offset ≡ 0) × (0 < length s.transfer.header) = ground arith in
          let r = first bytes e w at.0 at.1 refl refl in
          rw (room, start, send_first-ok bytes s q w t)
            (Looped-more r (
              transfer_loop-Looped fuel _ _ (Round-IsWindow r q) (Round-IsSendable r t)
                (omega (arith, Round-remaining t r))))
      | inr later ↦ elim (Bool-cases (leb (length bytes) s.transfer.offset)) [
        | inl spent ↦
            rw (room, later, spent)
              (Looped-end s _ batch (used bytes e (leb→le _ _ spent) (ground arith) refl))
        | inr unsent ↦
            let w : in_flight s < 8 = leb→lt 8 (in_flight s) room in
            let r = next bytes e w (leb→lt _ _ unsent) (ground arith) refl refl in
            rw (room, later, unsent, send_next-ok bytes s q w t)
              (Looped-more r (
                transfer_loop-Looped fuel _ _ (Round-IsWindow r q) (Round-IsSendable r t)
                  (omega (arith, Round-remaining t r))))
      ]
    ]
  ])
]
  where
    turn :
        (o : Option (List ℕ))
        → s.transfer.payload ≡ o
        → Looped s batch (transfer_round o (transfer_loop fuel) batch s)
        → Looped s batch (transfer_loop (suc fuel) batch s)
    turn o e l =
        subst (λ p. Looped s batch (transfer_round p (transfer_loop fuel) batch s)) (sym e) l
