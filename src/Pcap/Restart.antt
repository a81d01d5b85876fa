-- ===== src/Pcap/Restart.antt =====
-- os-daq-modules/daq_pcap.c: the statistics over a stop and over a reset.
use libdaq.Prelude.{
  ◌^◌, ◌<◌, CString, Option, none, some, le→ltb, ◌≡◌, refl, sym, ◌∙◌, arith, Bool-cases, eqb_ℤ,
  Option-cases, inl, inr,
}
use libdaq.Common.{Stats, no_stats, daq_success}
use libdaq.Pcap.{Libpcap, PcapStat, Context}
use libdaq.Pcap.Hardware.{take_stats, update_hw_stats, rebase, pcap_daq_reset_stats}
use libdaq.Pcap.Counters.{reset_live, update_live}
use libdaq.Pcap.Table.{pcap_daq_stop, pcap_daq_get_stats}

module _ {P F : Type 0} (pcap : Libpcap P F) where
  -- `pcap_daq_reset_stats` keeps the roll-over: read again at the same numbers, the counters of a live
  -- handle show what they had rolled over before the reset, not 0.
  pub reset_stats_keeps_rollover :
      (context : Context P) (p : P) (d : CString) (ps : PcapStat)
      → context.handle ≡ some p
      → context.device ≡ some d
      → context.rollover_recv < 2 ^ 64
      → context.rollover_drop < 2 ^ 64
      → ps.ps_recv < 2 ^ 32
      → ps.ps_drop < 2 ^ 32
      → let context' =
          (update_hw_stats pcap (pcap_daq_reset_stats context (some ps)) (some ps)).1 in
        (context'.stats.hw_packets_received ≡ context.rollover_recv)
        × (context'.stats.hw_packets_dropped ≡ context.rollover_drop)
  unfolding take_stats rebase
  reset_stats_keeps_rollover context p d ps open' live small small' word word' =
      rw (reset_live pcap context p d ps open' live) (
        rw
          (update_live pcap (rebase (record context { stats = no_stats }) (some ps)) p d ps open'
            live)
          (
            rw (le→ltb ps.ps_recv ps.ps_recv (omega arith)) (omega (arith, small, word)),
            rw (le→ltb ps.ps_drop ps.ps_drop (omega arith)) (omega (arith, small', word')),
          ))

  -- Without a handle nothing is asked of libpcap.
  closed_stats :
      (context : Context P) (answer : Option PcapStat) (before : Stats)
      → context.handle ≡ none
      → (pcap_daq_get_stats pcap context answer before).2 ≡ context.stats
  unfolding pcap_daq_get_stats update_hw_stats
  closed_stats context answer before closed = rw closed refl

  stop_closes :
      (context : Context P) (answer : Option PcapStat)
      → (pcap_daq_stop pcap context answer).1.handle ≡ none
  unfolding pcap_daq_stop
  stop_closes context answer = elim (Option-cases context.handle) [
    | inl e ↦ rw e refl
    | inr (p, e) ↦ rw e refl
  ]

  stop_keeps :
      (context : Context P) (answer : Option PcapStat)
      → (pcap_daq_stop pcap context answer).1.stats ≡ (update_hw_stats pcap context answer).1.stats
  unfolding pcap_daq_stop update_hw_stats
  stop_keeps context answer = elim (Option-cases context.handle) [
    | inl e ↦ rw e refl
    | inr (p, e) ↦ rw e refl
  ]

  read_ok :
      (context : Context P) (answer : Option PcapStat) (before : Stats)
      → (pcap_daq_get_stats pcap context answer before).0 ≡ daq_success
      → (pcap_daq_get_stats pcap context answer before).2
        ≡ (update_hw_stats pcap context answer).1.stats
  unfolding pcap_daq_get_stats
  read_ok context answer before ok =
      elim (Bool-cases (eqb_ℤ (update_hw_stats pcap context answer).0 daq_success)) [
        | inl e ↦ rw e refl
        | inr e ↦ absurd (ground (arith, rw e at ok))
      ]

  -- If the numbers can be read before a stop, the same can be read after it, whatever libpcap would
  -- answer then.
  pub get_stats-pcap_stop :
      (context : Context P) (answer later : Option PcapStat) (before : Stats)
      → (pcap_daq_get_stats pcap context answer before).0 ≡ daq_success
      → (pcap_daq_get_stats pcap (pcap_daq_stop pcap context answer).1 later before).2
        ≡ (pcap_daq_get_stats pcap context answer before).2
  unfolding pcap_daq_get_stats
  get_stats-pcap_stop context answer later before ok =
      rw
        (closed_stats (pcap_daq_stop pcap context answer).1 later before
          (stop_closes context answer))
        (stop_keeps context answer ∙ sym (read_ok context answer before ok))
