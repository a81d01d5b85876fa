-- ===== src/Nfq/Runs.antt =====
-- os-daq-modules/daq_nfq.c: what `daq_nfq_callback` makes of a packet whatever it is, and how the runs over
-- two lists of packets compose.
use libdaq.Prelude.{
  ◌&&◌, Bool, true, false, CString, ℕ, ℤ, pos, negsuc, List, [], ◌∷◌, ◌++◌, length, take, Option,
  none, some, Bool, true, false, ◌==◌, ◌≡◌, refl, sym, Bool-cases, Option-cases, elim_none,
  elim_some, inl, inr,
}
use mathlib.Core.Path.{subst}
use libdaq.Common.{Stats, max_daq_verdict, state_started}
use libdaq.Counting.{count_seen, Counted}
use libdaq.Netfilter.{Analysis}
use libdaq.Nfq.Acquire.{
  Queued, Moment, Session, held_back, nfq_hdr, nfq_payload, nfq_with_header, daq_nfq_callback,
  receive,
}
use libdaq.Nfq.Decisions.{
  Decision, Arrival, has_number, has_bytes, whole, kernel_verdicts, verdicts_of, decide, bytes_of,
}
use libdaq.Nfq.Packet.{after, told, nfq_decide_lem}

pub verdicts_of-append :
    (ds es : List Decision) → verdicts_of (ds ++ es) ≡ verdicts_of ds ++ verdicts_of es
unfolding verdicts_of
verdicts_of-append [] es = refl
verdicts_of-append (d ∷ ds) es = elim (Option-cases d.verdict) [
  | inl e ↦ rw (verdicts_of, e) (verdicts_of-append ds es)
  | inr (v, e) ↦ rw (verdicts_of, e, verdicts_of-append ds es) refl
]

pub kernel_verdicts-append :
    (passive : Bool) (ds es : List Decision)
    → kernel_verdicts passive (ds ++ es) ≡ kernel_verdicts passive ds ++ kernel_verdicts passive es
unfolding kernel_verdicts
kernel_verdicts-append passive [] es = refl
kernel_verdicts-append passive (d ∷ ds) es = rw (kernel_verdicts-append passive ds es) refl

-- What the tests on a packet say.
Whole : Option ℕ → Option (List ℕ) → Type 0
Whole id payload =
    (i : ℕ) × (b : ℕ) × (bytes : List ℕ) × (id ≡ some i) × (payload ≡ some (b ∷ bytes))

whole_lem :
    (id : Option ℕ) (payload : Option (List ℕ))
    → (has_number id && has_bytes payload) ≡ true
    → Whole id payload
unfolding Whole
whole_lem none payload e = absurd (cc)
whole_lem (some id) none e = absurd (cc)
whole_lem (some id) (some []) e = absurd (cc)
whole_lem (some id) (some (b ∷ bytes)) e = (id, b, bytes, refl, refl)

pub with_fields :
    (q : Queued) (id : Option ℕ) (payload : Option (List ℕ))
    → q.packet_id ≡ id
    → q.payload ≡ payload
    → record q { packet_id = id; payload = payload } ≡ q
with_fields q id payload e h = sym (λ i. record q { packet_id = e i; payload = h i })

module _ {F U G : Type 0} (filter : F → List ℕ → ℕ → ℕ) (callback : Analysis U G) where
  pub decide-cons :
      (user : Option U) (fcode : Option F) (snaplen : ℕ) (app : G) (a : Arrival)
      (rest : List Arrival)
      → let (mid, ds) = decide filter callback user fcode snaplen app (a ∷ []) in
        let (last, es) = decide filter callback user fcode snaplen mid rest in
        decide filter callback user fcode snaplen app (a ∷ rest) ≡ (last, ds ++ es)
  unfolding decide
  decide-cons user fcode snaplen app a rest =
      let pkt = bytes_of a.queued.payload in
      let hdr = nfq_hdr a.moment snaplen a.queued (length pkt) in
      elim (Bool-cases (held_back filter fcode (take hdr.caplen pkt) hdr.caplen)) [
        | inl held ↦ rw (decide, held) refl
        | inr held ↦ rw (decide, held) refl
      ]

  abbrev pub received_into : Session F U G → Option (List ℕ) → Session F U G
  received_into s buf = record s { impl = record s.impl { buf = buf } }

  pub received :
      (s : Session F U G) (bytes : List ℕ)
      → (buf : Option (List ℕ)) × (receive filter callback s bytes ≡ received_into s buf)
  unfolding receive
  received s bytes = elim (Option-cases s.impl.buf) [
    | inl e ↦ (s.impl.buf, elim_none s.impl.buf _ _ e)
    | inr (old, e) ↦ (_, elim_some s.impl.buf old _ _ e)
  ]

  -- One packet that is whole.
  abbrev pub Answered : Moment → Queued → Session F U G → Type 0
  Answered m q s =
      let (last, ds) = told filter callback s (record { moment = m; queued = q } ∷ []) in
      (st : Stats) × (daq_nfq_callback filter callback m s q
        ≡ (pos 0, after s st s.impl.buf last (kernel_verdicts s.impl.passive ds)))
      × Counted 1 s.impl.stats (count_seen st) (verdicts_of ds)

  pub callback-Answered :
      (m : Moment) (q : Queued) (s : Session F U G)
      → m.breaks ≡ false
      → (s.impl.state == state_started) ≡ true
      → whole q ≡ true
      → length s.impl.stats.verdicts ≡ max_daq_verdict
      → Answered m q s
  unfolding daq_nfq_callback nfq_with_header nfq_payload Whole
  callback-Answered m q s unbroken started is sized =
      let (id, b, bytes, e, h) = whole_lem q.packet_id q.payload is in
      let (st, same, counted) = nfq_decide_lem filter callback m q id b bytes s unbroken sized in
      subst (λ p. Answered m p s) (with_fields q (some id) (some (b ∷ bytes)) e h)
        (st, rw (daq_nfq_callback, started) same, counted)

  -- A packet that is no use: only the error text changes.
  abbrev Refused : Session F U G → ℤ × Session F U G → Type 0
  Refused s end =
      (error : CString) × (end ≡ (negsuc 0, record s { impl = record s.impl { error = error } }))

  with_header-Refused :
      (m : Moment) (q : Queued) (id : Option ℕ) (payload : Option (List ℕ)) (s : Session F U G)
      → (has_number id && has_bytes payload) ≡ false
      → Refused s (nfq_with_header filter callback m q id (nfq_payload payload) s)
  unfolding nfq_with_header nfq_payload
  with_header-Refused m q none payload s e = (_, refl)
  with_header-Refused m q (some id) none s e = (_, refl)
  with_header-Refused m q (some id) (some []) s e = (_, refl)
  with_header-Refused m q (some id) (some (b ∷ bytes)) s e = absurd (cc)

  pub callback-Refused :
      (m : Moment) (q : Queued) (s : Session F U G) (started : Bool)
      → (s.impl.state == state_started) ≡ started
      → (started && whole q) ≡ false
      → Refused s (daq_nfq_callback filter callback m s q)
  unfolding daq_nfq_callback
  callback-Refused m q s false state e = rw (daq_nfq_callback, state) (s.impl.error, refl)
  callback-Refused m q s true state e =
      rw (daq_nfq_callback, state) (with_header-Refused m q q.packet_id q.payload s e)
