-- ===== src/Pcap/Hardware.antt =====
-- os-daq-modules/daq_pcap.c: `update_hw_stats` and `pcap_daq_reset_stats`, with the answer of pcap_stats.
use libdaq.Prelude.{ℕ, ◌+◌, ◌-◌, ◌%◌, ◌^◌, ℤ, Option, none, some, ltb, if◌then◌else◌}
use libdaq.Common.{no_stats, daq_success, daq_error}
use libdaq.Pcap.{Libpcap, PcapStat, Context, set_error}

-- UINT32_MAX.
abbrev pub uint32_max : ℕ
uint32_max = 4_294_967_295

-- `rollover += UINT32_MAX` if the counter has wrapped.
abbrev pub rolled : ℕ → ℕ → ℕ → ℕ
rolled rollover now before = if ltb now before then (rollover + uint32_max) % 2 ^ 64 else rollover

-- `rollover + wrap - base` on 64 bits.
abbrev pub hw_count : ℕ → ℕ → ℕ → ℕ
hw_count rollover wrap base = (rollover + wrap + (2 ^ 64 - base)) % 2 ^ 64

-- The part that follows a successful pcap_stats.
unfoldable pub take_stats : {P : Type 0} → Context P → PcapStat → Context P
take_stats context ps =
    let recv = rolled context.rollover_recv ps.ps_recv context.wrap_recv in
    let drop = rolled context.rollover_drop ps.ps_drop context.wrap_drop in
    record context {
      rollover_recv = recv;
      rollover_drop = drop;
      wrap_recv = ps.ps_recv;
      wrap_drop = ps.ps_drop;
      stats = record context.stats {
        hw_packets_received = hw_count recv ps.ps_recv context.base_recv;
        hw_packets_dropped = hw_count drop ps.ps_drop context.base_drop;
      };
      hwupdate_count = 0;
    }

module _ {P F : Type 0} (pcap : Libpcap P F) where
  unfoldable pub read_stats : Context P → P → Option PcapStat → ℤ × Context P
  unfolding take_stats
  read_stats context p none = (daq_error, set_error context (pcap.geterr p))
  read_stats context p (some ps) = (daq_success, take_stats context ps)

  -- `update_hw_stats`.
  unfoldable pub update_hw_stats : Context P → Option PcapStat → ℤ × Context P
  unfolding read_stats
  update_hw_stats context answer = elim context.handle [
    | none ↦ (daq_success, context)
    | some p ↦ elim context.device [
      | none ↦ (daq_success, context)
      | some device ↦ read_stats context p answer
    ]
  ]

-- A read that succeeds becomes the base; nothing else of the roll-over is touched.
unfoldable pub rebase : {P : Type 0} → Context P → Option PcapStat → Context P
rebase context none = context
rebase context (some ps) = record context {
  base_recv = ps.ps_recv;
  wrap_recv = ps.ps_recv;
  base_drop = ps.ps_drop;
  wrap_drop = ps.ps_drop;
}

-- `pcap_daq_reset_stats`.
unfoldable pub pcap_daq_reset_stats : {P : Type 0} → Context P → Option PcapStat → Context P
unfolding rebase
pcap_daq_reset_stats context answer =
    let cleared = record context { stats = no_stats } in
    elim context.handle [
      | none ↦ cleared
      | some p ↦ elim context.device [ none ↦ cleared | some device ↦ rebase cleared answer ]
    ]
