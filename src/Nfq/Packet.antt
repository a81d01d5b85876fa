-- ===== src/Nfq/Packet.antt =====
-- os-daq-modules/daq_nfq.c: what `daq_nfq_callback` makes of one packet.
use libdaq.Prelude.{
  ℕ, pos, List, [], ◌∷◌, ◌++◌, length, take, get_or, Option, some, false, ◌==◌, not, ◌≡◌, refl,
  arith, Bool-cases, inl, inr,
}
use libdaq.Common.{Stats, max_daq_verdict}
use libdaq.Ipfw.Decisions.{lets_pass}
use libdaq.Counting.{clamp, count_seen, Counted, count_filtered-Counted, count_asked-Counted}
use libdaq.Netfilter.{Analysis, NfVerdict}
use libdaq.Nfq.Acquire.{
  Queued, Moment, Session, nfq_fwd, nfq_hdr, held_back, nfq_judge, nfq_answer, nfq_decide,
}
use libdaq.Nfq.Decisions.{Decision, Arrival, kernel_verdicts, verdicts_of, replaces, decide}

lets_pass-clamp : (v : ℕ) → not (get_or nfq_fwd (clamp v) 0 == 0) ≡ lets_pass (some v)
lets_pass-clamp v = ground arith

replaces-clamp : (v : ℕ) → (clamp v == 2) ≡ replaces (some v)
replaces-clamp v = ground arith

module _ {F U G : Type 0} where
  -- A session with other counters, another buffer, another application state and more verdicts.
  abbrev pub after : Session F U G → Stats → Option (List ℕ) → G → List NfVerdict → Session F U G
  after s st buf last out = record {
    impl = record s.impl { stats = st; buf = buf };
    app = last;
    given = s.given ++ out;
  }

module _ {F U G : Type 0} (filter : F → List ℕ → ℕ → ℕ) (callback : Analysis U G) where
  abbrev pub told : Session F U G → List Arrival → G × List Decision
  told s ps = decide filter callback s.impl.user_data s.impl.fcode s.impl.snaplen s.app ps

  pub nfq_decide_lem :
      (m : Moment) (q : Queued) (id b : ℕ) (bytes : List ℕ) (s : Session F U G)
      → m.breaks ≡ false
      → length s.impl.stats.verdicts ≡ max_daq_verdict
      → let q' : Queued = record q { packet_id = some id; payload = some (b ∷ bytes) } in
        let (last, ds) = told s (record { moment = m; queued = q' } ∷ []) in
        (st : Stats) × (nfq_decide filter callback m id
            (nfq_hdr m s.impl.snaplen q (length (b ∷ bytes)))
            (b ∷ bytes)
            s
          ≡ (pos 0, after s st s.impl.buf last (kernel_verdicts s.impl.passive ds)))
        × Counted 1 s.impl.stats (count_seen st) (verdicts_of ds)
  unfolding nfq_decide nfq_judge nfq_answer decide kernel_verdicts verdicts_of nfq_hdr
  nfq_decide_lem m q id b bytes s whole sized =
      let hdr = nfq_hdr m s.impl.snaplen q (length (b ∷ bytes)) in
      let seen = take hdr.caplen (b ∷ bytes) in
      let v = (callback s.impl.user_data s.app hdr seen).1 in
      elim (Bool-cases (held_back filter s.impl.fcode seen hdr.caplen)) [
        | inl held ↦ rw (held, whole) (_, refl, count_filtered-Counted s.impl.stats)
        | inr held ↦
            rw (held, whole, lets_pass-clamp v, replaces-clamp v)
              (_, refl, count_asked-Counted v s.impl.stats sized)
      ]
