-- ===== src/Udprdma/Transfer/CarryAll.antt =====
-- udprdma/session_tx.go: what several rounds of the loop send of a transfer.
use udpfsd.Common.{
  ℕ, ◌<◌, ◌≡◌, refl, sym, ap, ◌∙◌, arith, List, [], ◌∷◌, ◌++◌, true, false, Bool-cases, inl, inr,
  append-nil, append_assoc,
}
use udpfsd.Udprdma.Session.{Session, Transfer}
use udpfsd.Udprdma.AckTimer.{has_payload}
use udpfsd.Udprdma.Transfer.{IsSendable, Rounds, done, more}
use udpfsd.Udprdma.Transfer.Step.{Round-IsSendable}
use udpfsd.Udprdma.Transfer.Bytes.{body, bodies, unsent, zeros, IsAligned, Carries}
use udpfsd.Udprdma.Transfer.Carry.{Round-Carries, Round-IsAligned, Round-has_payload}

-- The packets of several rounds carry the next bytes.
pub record CarriesAll (s : Transfer) (pkts : List (List ℕ)) (t : Transfer) : Type 0 where
  pub padding : ℕ
  pub short : padding < 4
  pub same : bodies pkts ++ unsent t ≡ unsent s ++ zeros padding
  pub whole : has_payload t ≡ true → padding ≡ 0
  pub idle : has_payload s ≡ false → (padding ≡ 0) × (has_payload t ≡ false)

pub CarriesAll-none : (s : Transfer) → CarriesAll s [] s
unfolding bodies
CarriesAll-none s = record {
  padding = 0;
  short = omega arith;
  same = sym (append-nil _);
  whole = λ h. refl;
  idle = λ h. (refl, h);
}

pub CarriesAll-cons :
    {s t u : Transfer} {pkt : List ℕ} {pkts : List (List ℕ)}
    → Carries s pkt t
    → has_payload s ≡ true
    → has_payload t ≡ true
    → CarriesAll t pkts u
    → CarriesAll s (pkt ∷ pkts) u
unfolding bodies
CarriesAll-cons {s} {t} {u} {pkt} {pkts} c g h d = record {
  padding = d.padding;
  short = d.short;
  same =
      append_assoc (body pkt) (bodies pkts) (unsent u)
      ∙ ap (λ x. body pkt ++ x) d.same
      ∙ sym (append_assoc (body pkt) (unsent t) (zeros d.padding))
      ∙ ap (λ x. x ++ zeros d.padding)
          (c.same ∙ ap (λ k. unsent s ++ zeros k) (c.whole h) ∙ append-nil _);
  whole = d.whole;
  idle = λ n. cc;
}

CarriesAll-one :
    {s t : Transfer} {pkt : List ℕ}
    → Carries s pkt t
    → has_payload s ≡ true
    → CarriesAll s (pkt ∷ []) t
unfolding bodies
CarriesAll-one {s} {t} {pkt} c g = record {
  padding = c.padding;
  short = c.short;
  same = ap (λ x. x ++ unsent t) (append-nil (body pkt)) ∙ c.same;
  whole = c.whole;
  idle = λ n. cc;
}

pub Rounds-CarriesAll :
    {s u : Session} {pkts : List (List ℕ)}
    → Rounds s pkts u
    → IsAligned s.transfer
    → IsSendable s.transfer
    → CarriesAll s.transfer pkts u.transfer × IsAligned u.transfer
Rounds-CarriesAll {s} done a g = (CarriesAll-none s.transfer, a)
Rounds-CarriesAll (more r done) a g =
    (CarriesAll-one (Round-Carries a g r) (Round-has_payload r), Round-IsAligned r a)
Rounds-CarriesAll (more r (more q rs)) a g =
    let (c, b) = Rounds-CarriesAll (more q rs) (Round-IsAligned r a) (Round-IsSendable r g) in
    (CarriesAll-cons (Round-Carries a g r) (Round-has_payload r) (Round-has_payload q) c, b)

bodies-append : (ps qs : List (List ℕ)) → bodies (ps ++ qs) ≡ bodies ps ++ bodies qs
unfolding bodies
bodies-append [] qs = refl
bodies-append (p ∷ ps) qs =
    ap (λ x. body p ++ x) (bodies-append ps qs)
    ∙ sym (append_assoc (body p) (bodies ps) (bodies qs))

pub CarriesAll-trans :
    {s t u : Transfer} {ps qs : List (List ℕ)}
    → CarriesAll s ps t
    → CarriesAll t qs u
    → CarriesAll s (ps ++ qs) u
CarriesAll-trans {s} {t} {u} {ps} {qs} c d = elim (Bool-cases (has_payload t)) [
  | inl on ↦ record {
    padding = d.padding;
    short = d.short;
    same =
        together
        ∙ ap (λ k. (unsent s ++ zeros k) ++ zeros d.padding) (c.whole on)
        ∙ ap (λ x. x ++ zeros d.padding) (append-nil _);
    whole = d.whole;
    idle = λ n. let off = (c.idle n).1 in cc;
  }
  | inr off ↦ record {
    padding = c.padding;
    short = c.short;
    same =
        together ∙ ap (λ k. (unsent s ++ zeros c.padding) ++ zeros k) (d.idle off).0 ∙ append-nil _;
    whole = λ h. let never = (d.idle off).1 in cc;
    idle = λ n. ((c.idle n).0, (d.idle off).1);
  }
]
  where
    together : bodies (ps ++ qs) ++ unsent u ≡ (unsent s ++ zeros c.padding) ++ zeros d.padding
    together =
        ap (λ x. x ++ unsent u) (bodies-append ps qs)
        ∙ append_assoc (bodies ps) (bodies qs) (unsent u)
        ∙ ap (λ x. bodies ps ++ x) d.same
        ∙ sym (append_assoc (bodies ps) (unsent t) (zeros d.padding))
        ∙ ap (λ x. x ++ zeros d.padding) c.same
