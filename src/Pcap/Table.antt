-- ===== src/Pcap/Table.antt =====
-- os-daq-modules/daq_pcap.c: the other functions of the module's table.
use libdaq.Prelude.{ℕ, ℤ, pos, eqb_ℤ, CString, Option, none, some, Bool, if◌then◌else◌, bit_or}
use libdaq.Common.{
  Stats, inc64, daq_success, daq_error, daq_error_notsup, state_stopped, capa_bpf, capa_inject,
  capa_breakloop, capa_unpriv_start,
}
use libdaq.Pcap.{Libpcap, PcapStat, Context, set_error}
use libdaq.Pcap.Hardware.{update_hw_stats}

module _ {P F : Type 0} (pcap : Libpcap P F) where
  -- `pcap_daq_inject` with the answer of pcap_inject; a NULL handle faults.
  unfoldable pub pcap_daq_inject : Bool → Context P → Option (ℤ × Context P)
  pcap_daq_inject ok context = elim context.handle [
    | none ↦ none
    | some p ↦ some (
        if ok
        then (
          daq_success,
          record context {
            stats = record context.stats {
              packets_injected = inc64 context.stats.packets_injected;
            };
          },
        )
        else (daq_error, set_error context (pcap.geterr p)))
  ]

  -- `pcap_daq_breakloop`.
  unfoldable pub pcap_daq_breakloop : Context P → ℤ × Context P
  pcap_daq_breakloop context = elim context.handle [
    | none ↦ (daq_error, context)
    | some p ↦ (daq_success, record context { handle = some (pcap.breakloop p) })
  ]

  -- `pcap_daq_stop` with the answer of pcap_stats.
  unfoldable pub pcap_daq_stop : Context P → Option PcapStat → ℤ × Context P
  pcap_daq_stop context answer = elim context.handle [
    | none ↦ (daq_success, record context { state = state_stopped })
    | some p ↦ (
      daq_success,
      record (update_hw_stats pcap context answer).1 { handle = none; state = state_stopped },
    )
  ]

  -- `pcap_daq_get_stats`: a code, the context, and what it leaves in `*stats`.
  unfoldable pub pcap_daq_get_stats : Context P → Option PcapStat → Stats → ℤ × Context P × Stats
  pcap_daq_get_stats context answer stats =
      let (code, context') = update_hw_stats pcap context answer in
      if eqb_ℤ code daq_success
      then (daq_success, context', context'.stats)
      else (daq_error, context', stats)

  -- `pcap_daq_get_snaplen`.
  unfoldable pub pcap_daq_get_snaplen : Context P → ℤ
  pcap_daq_get_snaplen context = elim context.handle [
    | none ↦ context.snaplen
    | some p ↦ pcap.snapshot p
  ]

  -- `pcap_daq_get_datalink_type`; DLT_NULL is 0.
  unfoldable pub pcap_daq_get_datalink_type : Context P → ℤ
  pcap_daq_get_datalink_type context = elim context.handle [
    | none ↦ pos 0
    | some p ↦ pcap.datalink p
  ]

-- `if (context->device) capabilities |= DAQ_CAPA_INJECT;`
abbrev pub inject_flag : Option CString → ℕ
inject_flag none = 0
inject_flag (some device) = capa_inject

module _ {P : Type 0} where
  -- `pcap_daq_check_status`.
  unfoldable pub pcap_daq_check_status : Context P → ℕ
  pcap_daq_check_status context = context.state

  -- `pcap_daq_get_capabilities`.
  unfoldable pub pcap_daq_get_capabilities : Context P → ℕ
  pcap_daq_get_capabilities context =
      bit_or (bit_or (bit_or capa_bpf (inject_flag context.device)) capa_breakloop)
        (if context.delayed_open then 0 else capa_unpriv_start)

  -- `pcap_daq_get_errbuf`.
  unfoldable pub pcap_daq_get_errbuf : Context P → CString
  pcap_daq_get_errbuf context = context.errbuf

  -- `pcap_daq_set_errbuf`; a NULL text changes nothing.
  unfoldable pub pcap_daq_set_errbuf : Context P → Option CString → Context P
  pcap_daq_set_errbuf context none = context
  pcap_daq_set_errbuf context (some text) = set_error context text

  -- `pcap_daq_get_device_index`.
  unfoldable pub pcap_daq_get_device_index : Context P → CString → ℤ
  pcap_daq_get_device_index context device = daq_error_notsup
