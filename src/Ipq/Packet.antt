-- ===== src/Ipq/Packet.antt =====
-- os-daq-modules/daq_ipq.c: what `ipq_daq_acquire` makes of a packet, and of packets after each other.
use libdaq.Prelude.{
  ℕ, ◌+◌, CString, List, [], ◌∷◌, ◌++◌, length, take, Option, some, Bool, true, false, ◌==◌, ◌||◌,
  not, if◌then◌else◌, ◌≡◌, refl, sym, ap, ◌∙◌, arith, Bool-cases, inl, inr,
}
use mathlib.Core.List.{append_assoc, append-nil}
use libdaq.Common.{
  Stats, PktHdr, verdict_pass, max_daq_verdict, verdict_block, verdict_retry, verdict_blacklist,
  verdict_replace,
}
use libdaq.Ipfw.Decisions.{lets_pass}
use libdaq.Counting.{
  clamp, Counted, Counted-nil, Counted-append, count_filtered-Counted, count_asked-Counted,
}
use libdaq.Netfilter.{Analysis, NfVerdict, nf_accept, nf_drop}
use libdaq.Nfq.Acquire.{held_back}
use libdaq.Nfq.Decisions.{Decision, replaces, verdicts_of}
use libdaq.Nfq.Runs.{verdicts_of-append}
use libdaq.Ipq.Acquire.{
  IpqMoment, IpqPacket, IpqSession, ipq_hdr, ipq_answer, ipq_judge, ipq_handle,
}
use libdaq.Ipq.Decisions.{IpqArrival, ipq_verdicts, ipq_decide}

ipq_verdicts-append :
    (passive : Bool) (ds es : List Decision)
    → ipq_verdicts passive (ds ++ es) ≡ ipq_verdicts passive ds ++ ipq_verdicts passive es
unfolding ipq_verdicts
ipq_verdicts-append passive [] es = refl
ipq_verdicts-append passive (d ∷ ds) es = rw (ipq_verdicts-append passive ds es) refl

-- What the switch tests.
blocks_lem :
    (v : ℕ)
    → (clamp v == verdict_block || (clamp v == verdict_retry || clamp v == verdict_blacklist))
      ≡ not (lets_pass (some v))
blocks_lem v = ground arith

replaces-clamp : (v : ℕ) → (clamp v == verdict_replace) ≡ replaces (some v)
replaces-clamp v = ground arith

replaces-lets_pass : (v : ℕ) → lets_pass (some v) ≡ false → replaces (some v) ≡ false
replaces-lets_pass v e = ground arith

-- The answer on a packet that the filter keeps back, and on another.
answer_kept_back :
    (passive : Bool) (id : ℕ) (hdr : PktHdr) (payload : List ℕ)
    → ipq_answer (if passive then verdict_pass else verdict_pass) id hdr payload ≡ (
        if passive
        then record { packet_id = id; verdict = nf_accept; bytes = [] }
        else record { packet_id = id; verdict = nf_accept; bytes = [] })
unfolding ipq_answer
answer_kept_back true id hdr payload = refl
answer_kept_back false id hdr payload = refl

answer_asked :
    (passive : Bool) (v id : ℕ) (hdr : PktHdr) (payload : List ℕ)
    → ipq_answer (if passive then verdict_pass else clamp v) id hdr payload ≡ (
        if passive then record { packet_id = id; verdict = nf_accept; bytes = [] } else record {
          packet_id = id;
          verdict = if lets_pass (some v) then nf_accept else nf_drop;
          bytes = if replaces (some v) then take hdr.pktlen payload else [];
        })
unfolding ipq_answer
answer_asked true v id hdr payload = refl
answer_asked false v id hdr payload = elim (Bool-cases (lets_pass (some v))) [
  | inl passes ↦ elim (Bool-cases (replaces (some v))) [
    | inl new ↦ rw (blocks_lem v, replaces-clamp v, passes, new) refl
    | inr old ↦ rw (blocks_lem v, replaces-clamp v, passes, old) refl
  ]
  | inr blocked ↦ rw (blocks_lem v, replaces-clamp v, blocked, replaces-lets_pass v blocked) refl
]

module _ {F G : Type 0} where
  -- A session with other counters, another error text, another application state and more verdicts.
  abbrev pub after : IpqSession F G → Stats → CString → G → List NfVerdict → IpqSession F G
  after s st error last out = record {
    impl = record s.impl { stats = st; error = error };
    app = last;
    given = s.given ++ out;
  }

module _ {F U G : Type 0} (filter : F → List ℕ → ℕ → ℕ) (callback : Analysis U G)
    (user : Option U) where
  abbrev pub told : IpqSession F G → List IpqArrival → G × List Decision
  told s ps = ipq_decide filter callback user s.impl.fcode s.impl.snaplen s.app ps

  ipq_decide-cons :
      (fcode : Option F) (snaplen : ℕ) (app : G) (a : IpqArrival) (rest : List IpqArrival)
      → let (mid, ds) = ipq_decide filter callback user fcode snaplen app (a ∷ []) in
        let (last, es) = ipq_decide filter callback user fcode snaplen mid rest in
        ipq_decide filter callback user fcode snaplen app (a ∷ rest) ≡ (last, ds ++ es)
  unfolding ipq_decide
  ipq_decide-cons fcode snaplen app a rest =
      let hdr = ipq_hdr a.moment snaplen a.packet in
      elim (Bool-cases (held_back filter fcode (take hdr.caplen a.packet.payload) hdr.caplen)) [
        | inl held ↦ rw (ipq_decide, held) refl
        | inr held ↦ rw (ipq_decide, held) refl
      ]

  -- A session after the packets `ps`.
  abbrev pub Handled : List IpqArrival → IpqSession F G → IpqSession F G → Type 0
  Handled ps s s' =
      let (last, ds) = told s ps in
      (st : Stats) × (error : CString) × (s'
        ≡ after s st error last (ipq_verdicts s.impl.passive ds))
      × Counted (length ps) s.impl.stats st (verdicts_of ds)

  pub Handled-nil :
      (s : IpqSession F G) (error : CString)
      → Handled [] s (record s { impl = record s.impl { error = error } })
  unfolding ipq_decide ipq_verdicts verdicts_of
  Handled-nil s error = (
    s.impl.stats,
    error,
    ap (λ given. record s { impl = record s.impl { error = error }; given = given })
        (sym (append-nil s.given)),
    Counted-nil s.impl.stats,
  )

  pub ipq_handle-Handled :
      (m : IpqMoment) (p : IpqPacket) (s : IpqSession F G)
      → m.breaks ≡ false
      → length s.impl.stats.verdicts ≡ max_daq_verdict
      → Handled (record { moment = m; packet = p } ∷ []) s (ipq_handle filter callback user m p s)
  unfolding ipq_handle ipq_judge ipq_answer ipq_decide ipq_verdicts verdicts_of ipq_hdr
  ipq_handle-Handled m p s whole sized =
      let hdr = ipq_hdr m s.impl.snaplen p in
      let seen = take hdr.caplen p.payload in
      let v = (callback user s.app hdr seen).1 in
      elim (Bool-cases (held_back filter s.impl.fcode seen hdr.caplen)) [
        | inl held ↦
            rw (held, whole, answer_kept_back s.impl.passive p.packet_id hdr p.payload)
              (_, s.impl.error, refl, count_filtered-Counted s.impl.stats)
        | inr held ↦
            rw (held, whole, answer_asked s.impl.passive v p.packet_id hdr _)
              (_, s.impl.error, refl, count_asked-Counted v s.impl.stats sized)
      ]

  -- The session after one packet.
  abbrev pub after_one : IpqArrival → IpqSession F G → Stats → CString → IpqSession F G
  after_one a s st error =
      let (mid, ds) = told s (a ∷ []) in after s st error mid (ipq_verdicts s.impl.passive ds)

  -- A packet, then others.
  pub Handled-cons :
      (a : IpqArrival) (ps : List IpqArrival) (s s2 : IpqSession F G) (st : Stats) (error : CString)
      → Counted 1 s.impl.stats st (verdicts_of (told s (a ∷ [])).1)
      → Handled ps (after_one a s st error) s2
      → Handled (a ∷ ps) s s2
  Handled-cons a ps s s2 st error counted (st2, error2, e, counted2) =
      let (mid, ds) = told s (a ∷ []) in
      let (last, es) = told (after_one a s st error) ps in
      let passive = s.impl.passive in
      let sum : 1 + length ps ≡ length (a ∷ ps) = omega arith in
      rw (ipq_decide-cons s.impl.fcode s.impl.snaplen s.app a ps) (
        st2,
        error2,
        e
            ∙ ap (λ given. record (after s st2 error2 last []) { given = given })
                (append_assoc s.given (ipq_verdicts passive ds) (ipq_verdicts passive es)
                  ∙ ap (λ out. s.given ++ out) (sym (ipq_verdicts-append passive ds es))),
        rw (verdicts_of-append ds es)
            (Counted-append 1 (length ps) _ _ _ _ _ _ sum counted counted2),
      )
