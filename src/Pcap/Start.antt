-- ===== src/Pcap/Start.antt =====
-- os-daq-modules/daq_pcap.c: what a start leaves, whatever libpcap answers.
use libdaq.Prelude.{
  ℤ, pos, eqb_ℤ, CString, Option, none, some, if◌then◌else◌, ◌≡◌, ◌⊎◌, inl, inr, refl, ap, ◌∙◌,
  elim_some, elim_none, Bool-cases, Option-cases,
}
use libdaq.Common.{daq_success, daq_error, state_started, no_stats}
use libdaq.Pcap.{Libpcap, PcapStat, Context}
use libdaq.Pcap.Open.{
  Setup, configure, open_failed, lookup_text, opened, open_live, open_file, open_offline, open_new,
  pcap_daq_open,
}
use libdaq.Pcap.Hardware.{rebase, pcap_daq_reset_stats}
use libdaq.Pcap.Filter.{install_filter, pcap_daq_set_filter, started, start_filter, pcap_daq_start}

-- The context has a handle.
abbrev pub IsOpen : {P : Type 0} → Context P → Type 0
IsOpen {P} context = (p : P) × (context.handle ≡ some p)

-- A code and a context: success with a handle, or DAQ_ERROR; state and filter are kept.
record OpenResult {P : Type 0} (c : Context P) (r : ℤ × Context P) : Type 0 where
  code : ((r.0 ≡ daq_success) × IsOpen r.1) ⊎ (r.0 ≡ daq_error)
  state : r.1.state ≡ c.state
  filter : r.1.filter_string ≡ c.filter_string

module _ {P F : Type 0} (pcap : Libpcap P F) where
  opened-OpenResult : (c : Context P) (p : P) → OpenResult c (opened pcap c p)
  opened-OpenResult c p = record { code = inl (refl, (p, refl)); state = refl; filter = refl }

  looked_up :
      (c : Context P) (p : P) (text : Option CString)
      → OpenResult c (opened pcap (elim text [ none ↦ c | some t ↦ record c { errbuf = t } ]) p)
  looked_up c p none = opened-OpenResult c p
  looked_up c p (some t) = record { code = inl (refl, (p, refl)); state = refl; filter = refl }

  setup-OpenResult :
      (c : Context P) (device : CString) (s : Setup P)
      → OpenResult c (elim s [
        | Setup.failed q status ↦ open_failed pcap c device q status
        | Setup.good q ↦ opened pcap (lookup_text pcap c device) q
      ])
  unfolding open_failed
  setup-OpenResult c device (Setup.failed q status) = record {
    code = inr refl;
    state = refl;
    filter = refl;
  }
  setup-OpenResult c device (Setup.good q) = looked_up c q (pcap.lookupnet device)

  open_live-OpenResult :
      (c : Context P) (device : CString) (answer : Option P × CString)
      → OpenResult c (open_live pcap c device answer)
  unfolding open_live
  open_live-OpenResult c device (none, text) = record {
    code = inr refl;
    state = refl;
    filter = refl;
  }
  open_live-OpenResult c device (some p, text) =
      let c' = record c { errbuf = text } in
      let r = setup-OpenResult c' device (configure pcap c' p) in
      record { code = r.code; state = r.state; filter = r.filter }

  open_file-OpenResult :
      (c : Context P) (answer : Option P × CString) → OpenResult c (open_file pcap c answer)
  unfolding open_file
  open_file-OpenResult c (none, text) = record { code = inr refl; state = refl; filter = refl }
  open_file-OpenResult c (some p, text) = record {
    code = inl (refl, (p, refl));
    state = refl;
    filter = refl;
  }

  -- With a name to open, `pcap_daq_open` returns.
  open-OpenResult :
      (c : Context P) (name : CString)
      → (c.device ≡ some name) ⊎ ((c.device ≡ none) × (c.file ≡ some name))
      → (r : ℤ × Context P) × (pcap_daq_open pcap c ≡ some r) × OpenResult c r
  unfolding pcap_daq_open open_new open_offline
  open-OpenResult c name named = elim (Option-cases c.handle) [
    | inr (p, e) ↦ (
      (daq_success, c),
      elim_some c.handle p (open_new pcap c) (λ q. some (daq_success, c)) e,
      record { code = inl (refl, (p, e)); state = refl; filter = refl },
    )
    | inl e ↦
        let closed : pcap_daq_open pcap c ≡ open_new pcap c =
          elim_none c.handle (open_new pcap c) (λ q. some (daq_success, c)) e in
        elim named [
          | inl live ↦ (
            open_live pcap c name (pcap.create name),
            closed
                ∙ elim_some c.device name (open_offline pcap c c.file)
                    (λ d. some (open_live pcap c d (pcap.create d))) live,
            open_live-OpenResult c name (pcap.create name),
          )
          | inr (no_device, file) ↦ (
            open_file pcap c (pcap.open_offline name),
            closed
                ∙ (elim_none c.device (open_offline pcap c c.file)
                      (λ d. some (open_live pcap c d (pcap.create d))) no_device
                    ∙ ap (open_offline pcap c) file),
            open_file-OpenResult c (pcap.open_offline name),
          )
        ]
  ]

  install_lem :
      (c : Context P) (p : P) (filter : CString)
      → c.handle ≡ some p
      → IsOpen (install_filter pcap c p filter).1
        × ((install_filter pcap c p filter).1.state ≡ c.state)
  unfolding install_filter
  install_lem c p filter e = elim (Option-cases (pcap.compile p filter c.netmask)) [
    | inl bad ↦ rw (install_filter, bad) ((p, e), refl)
    | inr (code, good) ↦ elim (Option-cases (pcap.setfilter p code)) [
      | inl bad ↦ rw (install_filter, good, bad) ((p, e), refl)
      | inr (q, good') ↦ rw (install_filter, good, good') ((q, refl), refl)
    ]
  ]

  -- A context that is started, or was not.
  abbrev StartResult : Context P → ℤ × Context P → Type 0
  StartResult c (code, c') =
      ((code ≡ daq_success) × IsOpen c' × (c'.filter_string ≡ none) × (c'.state ≡ state_started))
      ⊎ ((code ≡ daq_error) × (c'.state ≡ c.state))

  reset_cases :
      (c : Context P) (h : Option P) (d : Option CString) (answer : Option PcapStat)
      → let c' : Context P = elim h [
        | none ↦ c
        | some p ↦ elim d [ none ↦ c | some device ↦ rebase c answer ]
      ] in
        (c'.handle ≡ c.handle) × (c'.state ≡ c.state)
  unfolding rebase
  reset_cases c none d answer = (refl, refl)
  reset_cases c (some p) none answer = (refl, refl)
  reset_cases c (some p) (some d) none = (refl, refl)
  reset_cases c (some p) (some d) (some ps) = (refl, refl)

  reset_lem :
      (c : Context P) (answer : Option PcapStat)
      → ((pcap_daq_reset_stats c answer).handle ≡ c.handle)
        × ((pcap_daq_reset_stats c answer).state ≡ c.state)
  unfolding pcap_daq_reset_stats
  reset_lem c answer = reset_cases (record c { stats = no_stats }) c.handle c.device answer

  -- What becomes of the code of `pcap_daq_set_filter`.
  filter_set :
      (c : Context P) (r : ℤ × Context P)
      → IsOpen r.1
      → r.1.state ≡ c.state
      → StartResult c (
          if eqb_ℤ r.0 (pos 0)
          then started pcap (record r.1 { filter_string = none })
          else (daq_error, r.1))
  filter_set c (code, c') (q, e) same = elim (Bool-cases (eqb_ℤ code (pos 0))) [
    | inl ok ↦ rw ok (inl (refl, (q, e), refl, refl))
    | inr bad ↦ rw bad (inr (refl, same))
  ]

  start_cases :
      (c : Context P) (set : CString → ℤ × Context P) (pending : Option CString)
      → c.filter_string ≡ pending
      → IsOpen c
      → ((t : CString) → IsOpen (set t).1 × ((set t).1.state ≡ c.state))
      → StartResult c (elim pending [
        | none ↦ started pcap c
        | some t ↦
            if eqb_ℤ (set t).0 (pos 0)
            then started pcap (record (set t).1 { filter_string = none })
            else (daq_error, (set t).1)
      ])
  start_cases c set none nothing open' kept = inl (refl, open', nothing, refl)
  start_cases c set (some t) pending open' kept = filter_set c (set t) (kept t).0 (kept t).1

  start_filter-StartResult :
      (strdup : CString → Option CString) (c : Context P) (p : P)
      → c.handle ≡ some p
      → StartResult c (start_filter pcap strdup c)
  unfolding start_filter pcap_daq_set_filter
  start_filter-StartResult strdup c p e =
      start_cases c (pcap_daq_set_filter pcap strdup c) c.filter_string refl (p, e)
        (λ t.
          let set : pcap_daq_set_filter pcap strdup c t ≡ install_filter pcap c p t =
            elim_some c.handle p _ (λ q. install_filter pcap c q t) e in
          rw set (install_lem c p t e))

  -- For a context with the name of a device, or of a file, `pcap_daq_start` returns. Either it gives
  -- DAQ_SUCCESS and the context is started, has a handle and no filter left to install, or it
  -- gives DAQ_ERROR and the state is as before.
  pub start_lem :
      (strdup : CString → Option CString) (answer : Option PcapStat) (c : Context P)
      (name : CString)
      → (c.device ≡ some name) ⊎ ((c.device ≡ none) × (c.file ≡ some name))
      → (code : ℤ) × (c' : Context P) × (pcap_daq_start pcap strdup answer c ≡ some (code, c'))
        × (((code ≡ daq_success)
              × IsOpen c'
              × (c'.filter_string ≡ none)
              × (c'.state ≡ state_started))
            ⊎ ((code ≡ daq_error) × (c'.state ≡ c.state)))
  unfolding pcap_daq_start
  start_lem strdup answer c name named =
      let (r, run, ended) = open-OpenResult c name named in
      elim ended.code [
        | inr bad ↦ (daq_error, r.1, rw (run, bad) refl, inr (refl, ended.state))
        | inl (ok, (p, e)) ↦
            let (same, same') = reset_lem r.1 answer in
            let c' = pcap_daq_reset_stats r.1 answer in
            (
              (start_filter pcap strdup c').0,
              (start_filter pcap strdup c').1,
              rw (run, ok) refl,
              elim (start_filter-StartResult strdup c' p (same ∙ e)) [
                | inl good ↦ inl good
                | inr (bad, kept) ↦ inr (bad, kept ∙ (same' ∙ ended.state))
              ],
            )
      ]
