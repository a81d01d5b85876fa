-- ===== src/Pcap/Filter.antt =====
-- os-daq-modules/daq_pcap.c: `pcap_daq_set_filter` and `pcap_daq_start`.
use libdaq.Prelude.{ℤ, pos, eqb_ℤ, CString, codes, ◌++◌, Option, none, some, if◌then◌else◌, ◌>>=◌}
use libdaq.Common.{daq_success, daq_error, daq_error_nomem, state_started}
use libdaq.Pcap.{Libpcap, PcapStat, Context, set_error}
use libdaq.Pcap.Open.{pcap_daq_open}
use libdaq.Pcap.Hardware.{pcap_daq_reset_stats}

-- DLT_EN10MB.
abbrev pub dlt_en10mb : ℤ
dlt_en10mb = pos 1

abbrev pub filter_error : CString → CString
filter_error text = codes "pcap_daq_set_filter: " ++ text

module _ {P F : Type 0} (pcap : Libpcap P F) where
  -- The branch with a handle.
  unfoldable pub install_filter : Context P → P → CString → ℤ × Context P
  install_filter context p filter = elim (pcap.compile p filter context.netmask) [
    | none ↦ (daq_error, set_error context (filter_error (codes "pcap_compile: " ++ pcap.geterr p)))
    | some code ↦ elim (pcap.setfilter p code) [
      | none ↦
          (daq_error, set_error context (filter_error (codes "pcap_setfilter: " ++ pcap.geterr p)))
      | some q ↦ (daq_success, record context { handle = some q })
    ]
  ]

  -- `strdup(filter)` with its answer; the old string is freed before.
  unfoldable pub keep_filter : Context P → Option CString → ℤ × Context P
  keep_filter context none = (
    daq_error_nomem,
    set_error (record context { filter_string = none })
        (filter_error (codes "Could not allocate space to store a copy of the filter string!")),
  )
  keep_filter context (some filter) = (daq_success, record context { filter_string = some filter })

  -- The branch without: the filter is compiled on a dead handle and kept for later.
  unfoldable pub check_filter :
      (CString → Option CString) → Context P → Option P → CString → ℤ × Context P
  unfolding keep_filter
  check_filter strdup context none filter = (
    daq_error_nomem,
    set_error context (filter_error (codes "Could not allocate a dead PCAP handle!")),
  )
  check_filter strdup context (some dead) filter = elim (pcap.compile dead filter context.netmask) [
    | none ↦
        (daq_error, set_error context (filter_error (codes "pcap_compile: " ++ pcap.geterr dead)))
    | some code ↦ keep_filter context (strdup filter)
  ]

  -- `pcap_daq_set_filter`.
  unfoldable pub pcap_daq_set_filter :
      (CString → Option CString) → Context P → CString → ℤ × Context P
  unfolding install_filter check_filter
  pcap_daq_set_filter strdup context filter = elim context.handle [
    | none ↦ check_filter strdup context (pcap.open_dead dlt_en10mb context.snaplen) filter
    | some p ↦ install_filter context p filter
  ]

  -- `context->state = DAQ_STATE_STARTED;`
  abbrev pub started : Context P → ℤ × Context P
  started context = (daq_success, record context { state = state_started })

  -- The filter that was kept is installed.
  unfoldable pub start_filter : (CString → Option CString) → Context P → ℤ × Context P
  unfolding pcap_daq_set_filter
  start_filter strdup context = elim context.filter_string [
    | none ↦ started context
    | some filter ↦
        let (code, context') = pcap_daq_set_filter strdup context filter in
        if eqb_ℤ code (pos 0)
        then started (record context' { filter_string = none })
        else (daq_error, context')
  ]

  -- `pcap_daq_start`, with the answer of pcap_stats.
  unfoldable pub pcap_daq_start :
      (CString → Option CString) → Option PcapStat → Context P → Option (ℤ × Context P)
  unfolding start_filter
  pcap_daq_start strdup answer context = do
    res ← pcap_daq_open pcap context
    (if eqb_ℤ res.0 daq_success
        then some (start_filter strdup (pcap_daq_reset_stats res.1 answer))
        else some (daq_error, res.1))
