-- ===== src/Nfq/Handled.antt =====
-- os-daq-modules/daq_nfq.c: sessions after packets that `nfq_daq_acquire` handled.
use libdaq.Prelude.{
  ℕ, ◌+◌, ℤ, List, [], ◌∷◌, ◌++◌, length, Option, Bool, false, CString, ◌≡◌, sym, ap, ◌∙◌, arith,
}
use mathlib.Core.List.{append_assoc, append-nil}
use libdaq.Common.{Stats}
use libdaq.Counting.{Counted, Counted-nil, Counted-append}
use libdaq.Netfilter.{Analysis, NfVerdict}
use libdaq.Nfq.Acquire.{Session}
use libdaq.Nfq.Decisions.{Arrival, counted_if, kernel_verdicts, verdicts_of, decide}
use libdaq.Nfq.Packet.{after, told}
use libdaq.Nfq.Runs.{decide-cons, kernel_verdicts-append, verdicts_of-append}

module _ {F U G : Type 0} where
  -- A session with other counters, another buffer and error text, another application state and more
  -- verdicts.
  abbrev pub changed :
      Session F U G → Stats → Option (List ℕ) → CString → G → List NfVerdict → Session F U G
  changed s st buf error last out = record {
    impl = record s.impl { stats = st; buf = buf; error = error };
    app = last;
    given = s.given ++ out;
  }

module _ {F U G : Type 0} (filter : F → List ℕ → ℕ → ℕ) (callback : Analysis U G) where
  -- The packets `ps` are answered, and perhaps one datagram more was no use.
  abbrev pub Handled : Bool → List Arrival → Session F U G → Session F U G → Type 0
  Handled cut ps s s' =
      let (last, ds) = told filter callback s ps in
      (st : Stats) × (buf : Option (List ℕ)) × (error : CString) × (s'
        ≡ changed s (counted_if cut st) buf error last (kernel_verdicts s.impl.passive ds))
      × Counted (length ps) s.impl.stats st (verdicts_of ds)

  abbrev pub Gives :
      Option ℤ → Bool → List Arrival → Session F U G → Option ℤ × Session F U G → Type 0
  Gives code cut ps s end = (end.0 ≡ code) × Handled cut ps s end.1

  pub Handled-nil :
      (s : Session F U G) (cut : Bool) (buf : Option (List ℕ)) (error : CString)
      → Handled cut [] s (record s {
        impl = record s.impl { stats = counted_if cut s.impl.stats; buf = buf; error = error };
      })
  unfolding decide kernel_verdicts verdicts_of
  Handled-nil s cut buf error = (
    s.impl.stats,
    buf,
    error,
    ap
        (λ given. record (changed s (counted_if cut s.impl.stats) buf error s.app []) {
          given = given;
        })
        (sym (append-nil s.given)),
    Counted-nil s.impl.stats,
  )

  pub Handled-same : (s : Session F U G) → Handled false [] s s
  Handled-same s = Handled-nil s false s.impl.buf s.impl.error

  -- The session after one packet.
  abbrev pub after_one : Arrival → Session F U G → Stats → Option (List ℕ) → Session F U G
  after_one a s st buf =
      let (mid, ds) = told filter callback s (a ∷ []) in
      after s st buf mid (kernel_verdicts s.impl.passive ds)

  pub Handled-cons :
      (cut : Bool) (a : Arrival) (ps : List Arrival) (s s2 : Session F U G) (st : Stats)
      (buf : Option (List ℕ))
      → Counted 1 s.impl.stats st (verdicts_of (told filter callback s (a ∷ [])).1)
      → Handled cut ps (after_one a s st buf) s2
      → Handled cut (a ∷ ps) s s2
  Handled-cons cut a ps s s2 st buf counted (st2, buf2, error2, e, counted2) =
      let (mid, ds) = told filter callback s (a ∷ []) in
      let (last, es) = told filter callback (after_one a s st buf) ps in
      let passive = s.impl.passive in
      let sum : 1 + length ps ≡ length (a ∷ ps) = omega arith in
      rw (decide-cons filter callback s.impl.user_data s.impl.fcode s.impl.snaplen s.app a ps) (
        st2,
        buf2,
        error2,
        e
            ∙ ap
                (λ given. record (changed s (counted_if cut st2) buf2 error2 last []) {
                  given = given;
                })
                (append_assoc s.given (kernel_verdicts passive ds) (kernel_verdicts passive es)
                  ∙ ap (λ out. s.given ++ out) (sym (kernel_verdicts-append passive ds es))),
        rw (verdicts_of-append ds es)
            (Counted-append 1 (length ps) _ _ _ _ _ _ sum counted counted2),
      )
