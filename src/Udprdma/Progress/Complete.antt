-- ===== src/Udprdma/Progress/Complete.antt =====
-- udprdma/session_tx.go and acks.go: a peer that acknowledges what it gets has the whole reply after a
-- bounded number of ACKs.
use udpfsd.Common.{
  ℕ, ◌+◌, ◌%◌, ◌<◌, ◌≤◌, ◌≡◌, refl, sym, ap, subst, ◌⊎◌, ◌∙◌, arith, List, [], ◌∷◌, ◌++◌, map, Bool,
  true, false, length, Outcome, ok, ◌>>=◌, Returns, Returns-ok, Returns-bind, inl, inr, append-nil,
}
use udpfsd.Udprdma.Session.{Session, Transfer, datagram}
use udpfsd.Udprdma.AckTimer.{has_payload}
use udpfsd.Udprdma.Transmit.{send_raw_data_with_header}
use udpfsd.Udprdma.Acks.{on_peer_ack}
use udpfsd.Udprdma.Transfer.Total.{remaining}
use udpfsd.Udprdma.Transfer.Bytes.{bodies, unsent, zeros, IsAligned}
use udpfsd.Udprdma.Invariant.{IsSession, Handled, handle_transfer-Handled}
use udpfsd.Udprdma.Progress.{
  Progress, Handled-Progress, handle_transfer-Progress, Progress-trans, on_peer_ack-Progress,
}
use udpfsd.Udprdma.Channel.{Numbered, deliver_all, GotAll, deliver_all-Numbered}
use udpfsd.Udprdma.Receive.Delivery.{Expects}
use udpfsd.Udprdma.Progress.Acked.{ack_all, ack_all-IsFinal, Progress-refl, Handled-remaining}
use udpfsd.Udprdma.Progress.Start.{
  started, started-IsSession, started-IsAligned, unsent-started, trace-started, tx-started,
  remaining-started,
}

-- The datagrams from `s` to `t`, with numbers that follow each other, carry a beginning of `reply`,
-- padded by fewer than four zeros, and by none while there is more to send.
pub record Sends (reply : List ℕ) (s t : Session) : Type 0 where
  pub pkts : List (List ℕ)
  pub padding : ℕ
  pub sent : t.trace ≡ s.trace ++ map datagram pkts
  pub short : padding < 4
  pub carried : bodies pkts ++ unsent t.transfer ≡ reply ++ zeros padding
  pub whole : (has_payload t.transfer ≡ false) ⊎ (padding ≡ 0)
  pub numbered : Numbered s.tx_seq_nr pkts t.tx_seq_nr

whole_or_done : (b : Bool) {n : ℕ} → (b ≡ true → n ≡ 0) → (b ≡ false) ⊎ (n ≡ 0)
whole_or_done true w = inr (w refl)
whole_or_done false w = inl refl

Sends-started :
    (header bytes : List ℕ) {s t : Session}
    → Progress (started header bytes s) t
    → Sends (header ++ bytes) s t
Sends-started header bytes {s} {t} p = record {
  pkts = p.pkts;
  padding = p.carries.padding;
  sent = p.sent ∙ ap (λ x. x ++ map datagram p.pkts) (trace-started header bytes s);
  short = p.carries.short;
  carried = p.carries.same ∙ ap (λ x. x ++ zeros p.carries.padding) (unsent-started header bytes s);
  whole = whole_or_done (has_payload t.transfer) p.carries.whole;
  numbered = subst (λ k. Numbered k p.pkts t.tx_seq_nr) (tx-started header bytes s) p.numbered;
}

-- The peer sends ACKs, of any numbers.
pub run_acks : List ℕ → Session → Outcome Session
run_acks [] s = ok s
run_acks (ack ∷ acks) s = on_peer_ack ack s >>= run_acks acks

abbrev pub AllTwelveBits : List ℕ → Type 0
AllTwelveBits [] = Unit
AllTwelveBits (ack ∷ acks) = (ack < 4096) × AllTwelveBits acks

run_acks-Progress :
    (acks : List ℕ) (s : Session)
    → AllTwelveBits acks
    → IsSession s
    → IsAligned s.transfer
    → Returns (Progress s) (run_acks acks s)
unfolding run_acks
run_acks-Progress [] s h i a = Returns-ok s (Progress-refl s i a)
run_acks-Progress (ack ∷ acks) s h i a =
    Returns-bind {P = Progress s} _ _ (on_peer_ack-Progress ack s i a h.0) (λ t p.
      let r = run_acks-Progress acks t h.1 p.session p.aligned in
      record { value = r.value; result = r.result; holds = Progress-trans p r.holds })

-- A reply whose header is whole words and shorter than 64 bytes, followed by any ACKs: the datagrams
-- sent carry the header and then the data in order, each byte once, up to what is still to be sent;
-- fewer than four zeros follow the end, and none before it. No step panics.
pub reply_in_order :
    (header bytes acks : List ℕ) (s : Session)
    → IsSession s
    → length header % 4 ≡ 0
    → length header < 64
    → AllTwelveBits acks
    → Returns
        (Sends (header ++ bytes) s)
        (send_raw_data_with_header header bytes s >>= run_acks acks)
unfolding send_raw_data_with_header started
reply_in_order header bytes acks s i aligned short h =
    let s0 = started header bytes s in
    Returns-bind {P = Progress s0} _ _
      (handle_transfer-Progress s0 (started-IsSession header bytes s i (omega arith))
        (started-IsAligned header bytes s aligned short))
      (λ t p.
        let r = run_acks-Progress acks t h p.session p.aligned in
        record {
          value = r.value;
          result = r.result;
          holds = Sends-started header bytes (Progress-trans p r.holds);
        })

-- A whole reply: nothing is left to send, and the datagrams carry all of it.
pub record SendsAll (reply : List ℕ) (s t : Session) : Type 0 where
  pub pkts : List (List ℕ)
  pub padding : ℕ
  pub sent : t.trace ≡ s.trace ++ map datagram pkts
  pub short : padding < 4
  pub carried : bodies pkts ≡ reply ++ zeros padding
  pub numbered : Numbered s.tx_seq_nr pkts t.tx_seq_nr
  pub finished : has_payload t.transfer ≡ false

finished-unsent : (t : Transfer) → remaining t ≡ 0 → (has_payload t ≡ false) × (unsent t ≡ [])
unfolding remaining has_payload unsent
finished-unsent t h = ground arith

-- A reply whose header is whole words and shorter than 64 bytes, sent from a session with its invariant.
-- If the peer acknowledges all that it was sent, one time more than the data has bytes, the whole reply
-- is sent, and no call panics: the datagrams carry the header, the data and fewer than four zeros.
pub reply_complete :
    (header bytes : List ℕ) (s : Session)
    → IsSession s
    → length header % 4 ≡ 0
    → length header < 64
    → Returns
        (SendsAll (header ++ bytes) s)
        (send_raw_data_with_header header bytes s >>= ack_all (length bytes + 1))
unfolding send_raw_data_with_header started
reply_complete header bytes s i aligned short =
    let s0 = started header bytes s in
    let j = started-IsSession header bytes s i (omega arith) in
    let a = started-IsAligned header bytes s aligned short in
    Returns-bind {P = Handled s0} _ _ (handle_transfer-Handled s0 j)
      (λ t h. finish t h (Handled-Progress h j a))
  where
    finish :
        (t : Session)
        → Handled (started header bytes s) t
        → Progress (started header bytes s) t
        → Returns (SendsAll (header ++ bytes) s) (ack_all (length bytes + 1) t)
    finish t h p =
        let j = started-IsSession header bytes s i (omega arith) in
        let few : remaining t.transfer ≤ length bytes + 1 =
          omega (arith, Handled-remaining h j, remaining-started header bytes s) in
        let r = ack_all-IsFinal (length bytes + 1) t p.session p.aligned few in
        let all = Sends-started header bytes (Progress-trans p r.holds.progress) in
        let (over, gone) = finished-unsent r.value.transfer r.holds.finished in
        record {
          value = r.value;
          result = r.result;
          holds = record {
            pkts = all.pkts;
            padding = all.padding;
            sent = all.sent;
            short = all.short;
            carried = sym (append-nil _) ∙ ap (λ x. bodies all.pkts ++ x) (sym gone) ∙ all.carried;
            numbered = all.numbered;
            finished = over;
          };
        }

-- What a peer gets of a reply: all of it, and fewer than four zeros behind.
pub record Transferred (reply : List ℕ) (s peer t : Session) : Type 0 where
  pub pkts : List (List ℕ)
  pub padding : ℕ
  pub sent : t.trace ≡ s.trace ++ map datagram pkts
  pub short : padding < 4
  pub got : Returns (GotAll (reply ++ zeros padding) t.tx_seq_nr) (deliver_all pkts peer)
  pub finished : has_payload t.transfer ≡ false

-- A reply between two sessions: the header is whole words and shorter than 64 bytes, and `peer`
-- expects the number that `s` sends next. Once `s` has had an ACK of all it had sent, one time more
-- than the data has bytes, it has no more to send. The peer, which is given the datagrams in order,
-- refuses none of them, and gets the header and the data, each byte once and in order, and then fewer
-- than four zeros; it expects the number that `s` sends next.
pub reply_received :
    (header bytes : List ℕ) (s peer : Session)
    → IsSession s
    → Expects s.tx_seq_nr peer
    → length header % 4 ≡ 0
    → length header < 64
    → Returns
        (Transferred (header ++ bytes) s peer)
        (send_raw_data_with_header header bytes s >>= ack_all (length bytes + 1))
reply_received header bytes s peer i x aligned short =
    let r = reply_complete header bytes s i aligned short in
    let all = r.holds in
    record {
      value = r.value;
      result = r.result;
      holds = record {
        pkts = all.pkts;
        padding = all.padding;
        sent = all.sent;
        short = all.short;
        got =
            subst (λ got. Returns (GotAll got r.value.tx_seq_nr) (deliver_all all.pkts peer))
              all.carried (deliver_all-Numbered peer all.numbered x);
        finished = all.finished;
      };
    }
