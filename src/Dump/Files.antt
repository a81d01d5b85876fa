-- ===== src/Dump/Files.antt =====
-- os-daq-modules/daq_dump.c: the files over `dump_daq_inject`, `dump_daq_start` and `dump_daq_stop`.
use libdaq.Prelude.{
  ℕ, ℤ, pos, eqb_ℤ, CString, codes, List, [], ◌∷◌, ◌++◌, Option, none, some, Bool, true, false, not,
  ◌==◌, bit_and, if◌then◌else◌, ◌≡◌, ◌⊎◌, inl, inr, refl, arith, Bool-cases, Option-cases, sym, ◌∙◌,
}
use libdaq.Common.{PktHdr, inc64, daq_success, daq_error}
use libdaq.Module.{Module}
use libdaq.Dump.State.{
  Pcap, Output, Impl, output_pcap, output_text, print, count_injected, inject_entry, or_default,
}
use libdaq.Dump.{
  fail, abort_start, open_dump, start_text, start_dump, dump_daq_start, dump_daq_stop, inject_dump,
  dump_daq_inject,
}
use libdaq.Dump.Capture.{Packet, log, extended}

-- The fields that outlive a start and a stop.
abbrev closed : {D : Type 0} → Output D → Output D
closed out = record out { dump = none; text_out = none }

abbrev Keeps : {C D : Type 0} → Output D → Option (ℤ × Impl C D) → Type 0
Keeps out none = Unit
Keeps out (some (code, impl')) = closed impl'.out ≡ closed out

closed_lem :
    {D : Type 0} (out : Output D) → out.dump ≡ none → out.text_out ≡ none → closed out ≡ out
closed_lem out no_dump no_text = λ i. record out { dump = sym no_dump i; text_out = sym no_text i }

if-Keeps :
    {C D : Type 0} (out : Output D) (b : Bool) (x y : Option (ℤ × Impl C D))
    → Keeps out x
    → Keeps out y
    → Keeps out (if b then x else y)
if-Keeps out true x y kept kept' = kept
if-Keeps out false x y kept kept' = kept'

module _ {P D C U : Type 0} (pcap : Pcap P D) (m : Module C (Output D × U)) where
  abort_start-Keeps :
      (out : Output D) (impl : Impl C D) (text : CString)
      → closed impl.out ≡ closed out
      → Keeps out (abort_start pcap m impl text)
  unfolding abort_start fail
  abort_start-Keeps out impl text same = elim (Option-cases m.stop) [
    | inl e ↦ rw e tt
    | inr (stop, e) ↦ elim (Option-cases m.set_errbuf) [
      | inl e' ↦ rw (e, e') tt
      | inr (set, e') ↦ rw (e, e') same
    ]
  ]

  start_text-Keeps :
      (out : Output D) (fopen_ok : CString → Bool) (impl : Impl C D)
      → closed impl.out ≡ closed out
      → Keeps out (start_text pcap m fopen_ok impl)
  unfolding start_text
  start_text-Keeps out fopen_ok impl same =
      if-Keeps out (bit_and impl.out.output_type output_text == 0) _ _ same (
        if-Keeps out (fopen_ok (or_default impl.out.text_filename (codes "inline-out.txt"))) _ _
          same
          (abort_start-Keeps out (record impl { out = record impl.out { text_out = none } })
            (codes "can't open text output file") same))

  dump_result-Keeps :
      (fopen_ok : CString → Bool) (impl : Impl C D) (dump : Option D)
      → let impl' : Impl C D = record impl { out = record impl.out { dump = dump } } in
        Keeps impl.out (elim dump [
          | none ↦ abort_start pcap m impl' (codes "can't open dump file")
          | some d ↦ start_text pcap m fopen_ok impl'
        ])
  dump_result-Keeps fopen_ok impl none =
      abort_start-Keeps impl.out (record impl { out = record impl.out { dump = none } })
        (codes "can't open dump file") refl
  dump_result-Keeps fopen_ok impl (some d) =
      start_text-Keeps impl.out fopen_ok (record impl { out = record impl.out { dump = some d } })
        refl

  start_dump-Keeps :
      (fopen_ok : CString → Bool) (dlt snap : ℤ) (impl : Impl C D)
      → Keeps impl.out (start_dump pcap m fopen_ok dlt snap impl)
  unfolding start_dump
  start_dump-Keeps fopen_ok dlt snap impl =
      if-Keeps impl.out (bit_and impl.out.output_type output_pcap == 0) _ _
        (start_text-Keeps impl.out fopen_ok impl refl)
        (dump_result-Keeps fopen_ok impl (open_dump pcap m dlt snap impl.out.pcap_filename))

  start-Keeps :
      (fopen_ok : CString → Bool) (impl : Impl C D)
      → Keeps impl.out (dump_daq_start pcap m fopen_ok impl)
  unfolding dump_daq_start
  start-Keeps fopen_ok impl = elim (Option-cases m.start) [
    | inl e ↦ rw e tt
    | inr (start, e) ↦ rw e (
        if-Keeps impl.out (not (eqb_ℤ (start impl.handle).1 (pos 0))) _ _ refl
          (elim (Option-cases m.get_datalink_type) [
            | inl e' ↦ rw e' tt
            | inr (dlt, e') ↦ elim (Option-cases m.get_snaplen) [
              | inl e'' ↦ rw (e', e'') tt
              | inr (snap, e'') ↦
                  rw (e', e'')
                    (start_dump-Keeps fopen_ok (dlt (start impl.handle).0)
                      (snap (start impl.handle).0) (record impl { handle = (start impl.handle).0 }))
            ]
          ]))
  ]

  stop_lem :
      (impl impl' : Impl C D)
      → dump_daq_stop pcap m impl ≡ some (daq_success, impl')
      → impl'.out ≡ closed impl.out
  unfolding dump_daq_stop
  stop_lem impl impl' stopped = elim (Option-cases m.stop) [
    | inl e ↦ ground (arith, e, stopped)
    | inr (stop, e) ↦ elim (Bool-cases (eqb_ℤ (stop impl.handle).1 (pos 0))) [
      | inl ok ↦ ground (arith, e, ok, rw (e, ok) at stopped)
      | inr bad ↦ ground (arith, e, bad, rw (e, bad) at stopped)
    ]
  ]

  -- If both files were closed before a successful start, a successful stop leaves everything but the
  -- delegate as it was before the start: both files are closed, and the names, the output type and the
  -- statistics are the same.
  pub stop-start :
      (fopen_ok : CString → Bool) (impl impl' impl'' : Impl C D)
      → impl.out.dump ≡ none
      → impl.out.text_out ≡ none
      → dump_daq_start pcap m fopen_ok impl ≡ some (daq_success, impl')
      → dump_daq_stop pcap m impl' ≡ some (daq_success, impl'')
      → impl''.out ≡ impl.out
  unfolding dump_daq_start dump_daq_stop
  stop-start fopen_ok impl impl' impl'' no_dump no_text started stopped =
      stop_lem impl' impl'' stopped
      ∙ ((rw started at (start-Keeps fopen_ok impl)) ∙ closed_lem impl.out no_dump no_text)

  module _ (start : C → C × ℤ) (stop : C → C × ℤ) (set : C → CString → C)
      (has_start : m.start ≡ some start) (has_stop : m.stop ≡ some stop)
      (has_set : m.set_errbuf ≡ some set) where
    -- If both outputs are on, the delegate starts, the pcap file opens and the text file does not, then
    -- `dump_daq_start` gives DAQ_ERROR and leaves the pcap file open, though the delegate is stopped.
    pub text-failure-leaks :
        (impl : Impl C D) (f g : C → ℤ) (d : D)
        → m.get_datalink_type ≡ some f
        → m.get_snaplen ≡ some g
        → (start impl.handle).1 ≡ pos 0
        → (bit_and impl.out.output_type output_pcap == 0) ≡ false
        → (bit_and impl.out.output_type output_text == 0) ≡ false
        → open_dump pcap m
            (f (start impl.handle).0)
            (g (start impl.handle).0)
            impl.out.pcap_filename
          ≡ some d
        → (impl' : Impl C D) × (dump_daq_start pcap m (λ _. false) impl ≡ some (daq_error, impl'))
          × (impl'.out.dump ≡ some d)
    unfolding dump_daq_start start_dump start_text abort_start fail
    text-failure-leaks impl f g d has_f has_g ok pcap_on text_on opened = (
      record {
        handle = set (stop (start impl.handle).0).0 (codes "can't open text output file");
        out = record impl.out { dump = some d; text_out = none };
      },
      rw (has_start, ok, has_f, has_g, pcap_on, opened, text_on, has_stop, has_set, opened) refl,
      refl,
    )

-- The header of an injected packet in the dump file.
abbrev pub sized : PktHdr → ℕ → PktHdr
sized hdr len = record hdr { pktlen = len; caplen = len }

module _ {P D C U : Type 0} (pcap : Pcap P D) (m : Module C (Output D × U))
    (written : D → List Packet)
    (appends : (d : D) (hdr : PktHdr) (pkt : List ℕ)
      → written (pcap.dump d hdr pkt) ≡ written d ++ ((hdr, pkt) ∷ [])) where
  -- What an injection does: the packet goes to the dump file with its own lengths, whether or not that
  -- then fails; it is counted if the call succeeds, and the call fails only if the dump file did.
  pub inject_lem :
      (set : C → CString → C)
      → m.set_errbuf ≡ some set
      → (impl : Impl C D) (hdr : PktHdr) (bytes : List ℕ) (len : ℕ) (reverse : ℤ)
      → (code : ℤ) × (impl' : Impl C D) × (dump_daq_inject pcap m impl hdr bytes len reverse
          ≡ some (code, impl'))
        × (log written impl'.out.dump
            ≡ extended written impl.out.dump ((sized hdr len, bytes) ∷ []))
        × (impl'.out.stats.verdicts ≡ impl.out.stats.verdicts)
        × (((code ≡ daq_success)
              × (impl'.out.stats.packets_injected ≡ inc64 impl.out.stats.packets_injected)
              × (impl'.handle ≡ impl.handle))
            ⊎ ((code ≡ daq_error)
                × (impl'.out.stats.packets_injected ≡ impl.out.stats.packets_injected)
                × ((d : D) × (impl'.out.dump ≡ some d) × (pcap.failed d ≡ true))))
  unfolding dump_daq_inject inject_dump fail
  inject_lem set has_set impl hdr bytes len reverse =
      let text = print (inject_entry hdr bytes len reverse) impl.out.text_out in
      elim (Option-cases impl.out.dump) [
        | inl e ↦ (
          daq_success,
          count_injected (record impl { out = record impl.out { text_out = text } }),
          rw e refl,
          rw e refl,
          refl,
          inl (refl, refl, refl),
        )
        | inr (d, e) ↦
            let d' = pcap.dump d (sized hdr len) bytes in
            let impl' : Impl C D = record impl {
              out = record impl.out { text_out = text; dump = some d' };
            } in
            elim (Bool-cases (pcap.failed d')) [
              | inl bad ↦ (
                daq_error,
                record impl' { handle = set impl.handle (codes "inject can't write to dump file") },
                rw (e, bad, has_set) refl,
                rw e (appends d (sized hdr len) bytes),
                refl,
                inr (refl, refl, (d', refl, bad)),
              )
              | inr ok ↦ (
                daq_success,
                count_injected impl',
                rw (e, ok) refl,
                rw e (appends d (sized hdr len) bytes),
                refl,
                inl (refl, refl, refl),
              )
            ]
      ]
