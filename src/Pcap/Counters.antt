-- ===== src/Pcap/Counters.antt =====
-- os-daq-modules/daq_pcap.c: what `update_hw_stats` makes of 32-bit counters that wrap.
use libdaq.Prelude.{
  ℕ, ◌+◌, ◌-◌, ◌*◌, ◌/◌, ◌%◌, ◌^◌, ◌≤◌, ◌<◌, CString, List, [], ◌∷◌, some, ltb, ltb→lt, ltb→le, ◌≡◌,
  refl, ◌∙◌, arith, elim_some, inl, inr, Bool-cases,
}
use libdaq.Common.{no_stats}
use libdaq.Pcap.{Libpcap, PcapStat, Context}
use libdaq.Pcap.Hardware.{
  uint32_max, rolled, hw_count, take_stats, read_stats, update_hw_stats, rebase,
  pcap_daq_reset_stats,
}

-- The packets that the interface has seen and dropped, in all.
pub record Seen : Type 0 where
  pub received : ℕ
  pub dropped : ℕ

-- What pcap_stats shows of them.
abbrev pub shown : Seen → PcapStat
shown t = record { ps_recv = t.received % 2 ^ 32; ps_drop = t.dropped % 2 ^ 32 }

-- How often a counter has wrapped between two moments.
abbrev pub wraps : ℕ → ℕ → ℕ
wraps before now = now / 2 ^ 32 - before / 2 ^ 32

-- A counter that is read before it wraps twice.
abbrev pub Follows : ℕ → ℕ → Type 0
Follows before now = (before ≤ now) × (now < before + 2 ^ 32) × (now < 2 ^ 63)

-- Readings after each other.
abbrev pub Readings : Seen → List Seen → Type 0
Readings before [] = Unit
Readings before (t ∷ ts) =
    (Follows before.received t.received × Follows before.dropped t.dropped) × Readings t ts

abbrev pub last : Seen → List Seen → Seen
last t [] = t
last before (t ∷ ts) = last t ts

-- The roll-over and the last value of one counter that started at `start` and is at `now`.
abbrev Tracks : ℕ → ℕ → ℕ → ℕ → Type 0
Tracks start now rollover wrap =
    (start ≤ now)
    × (now < 2 ^ 63)
    × (wrap ≡ now % 2 ^ 32)
    × (rollover ≡ uint32_max * (now / 2 ^ 32 - start / 2 ^ 32))

Tracks-rolled :
    (start before now rollover wrap : ℕ)
    → Tracks start before rollover wrap
    → Follows before now
    → Tracks start now (rolled rollover (now % 2 ^ 32) wrap) (now % 2 ^ 32)
Tracks-rolled start before now rollover wrap (h, below, at, roll) (up, near, small) =
    elim (Bool-cases (ltb (now % 2 ^ 32) wrap)) [
      | inl e ↦
          let less = ltb→lt (now % 2 ^ 32) wrap e in
          (
            omega (arith, h, up),
            small,
            refl,
            rw e (omega (arith, less, at, roll, h, up, near, small)),
          )
      | inr e ↦
          let more = ltb→le (now % 2 ^ 32) wrap e in
          (
            omega (arith, h, up),
            small,
            refl,
            rw e (omega (arith, more, at, roll, h, up, near, small)),
          )
    ]

-- What is shown is the true number less one for every wrap.
hw_count_lem :
    (start now rollover wrap : ℕ)
    → Tracks start now rollover wrap
    → hw_count rollover wrap (start % 2 ^ 32) + wraps start now ≡ now - start
hw_count_lem start now rollover wrap (h, small, at, roll) = omega (arith, h, small, at, roll)

-- A context whose counters are right.
record Counting {P : Type 0} (start now : Seen) (context : Context P) : Type 0 where
  live : (p : P) × (d : CString) × (context.handle ≡ some p) × (context.device ≡ some d)
  recv : Tracks start.received now.received context.rollover_recv context.wrap_recv
  drop : Tracks start.dropped now.dropped context.rollover_drop context.wrap_drop
  base_recv : context.base_recv ≡ start.received % 2 ^ 32
  base_drop : context.base_drop ≡ start.dropped % 2 ^ 32
  received :
      context.stats.hw_packets_received + wraps start.received now.received
      ≡ now.received - start.received
  dropped :
      context.stats.hw_packets_dropped + wraps start.dropped now.dropped
      ≡ now.dropped - start.dropped

module _ {P F : Type 0} (pcap : Libpcap P F) where
  pub update_live :
      (context : Context P) (p : P) (d : CString) (ps : PcapStat)
      → context.handle ≡ some p
      → context.device ≡ some d
      → (update_hw_stats pcap context (some ps)).1 ≡ take_stats context ps
  unfolding update_hw_stats read_stats
  update_live context p d ps open' live = rw (open', live) refl

  pub reset_live :
      (context : Context P) (p : P) (d : CString) (ps : PcapStat)
      → context.handle ≡ some p
      → context.device ≡ some d
      → pcap_daq_reset_stats context (some ps)
        ≡ rebase (record context { stats = no_stats }) (some ps)
  unfolding pcap_daq_reset_stats
  reset_live context p d ps open' live =
      let cleared = record context { stats = no_stats } in
      elim_some context.handle p cleared _ open'
      ∙ elim_some context.device d cleared (λ device. rebase cleared (some ps)) live

  take_stats-Counting :
      (start before now : Seen) (context : Context P)
      → Counting start before context
      → Follows before.received now.received
      → Follows before.dropped now.dropped
      → Counting start now (take_stats context (shown now))
  unfolding take_stats
  take_stats-Counting start before now context c up up' =
      let recv =
        Tracks-rolled start.received before.received now.received context.rollover_recv
          context.wrap_recv c.recv up in
      let drop =
        Tracks-rolled start.dropped before.dropped now.dropped context.rollover_drop
          context.wrap_drop c.drop up' in
      record {
        live = c.live;
        recv = recv;
        drop = drop;
        base_recv = c.base_recv;
        base_drop = c.base_drop;
        received = rw (c.base_recv) (hw_count_lem start.received now.received _ _ recv);
        dropped = rw (c.base_drop) (hw_count_lem start.dropped now.dropped _ _ drop);
      }

  -- Calls of `update_hw_stats` after each other.
  unfoldable pub update_all : Context P → List Seen → Context P
  update_all context [] = context
  update_all context (t ∷ ts) = update_all (update_hw_stats pcap context (some (shown t))).1 ts

  update_all-Counting :
      (start before : Seen) (context : Context P) (ts : List Seen)
      → Counting start before context
      → Readings before ts
      → Counting start (last before ts) (update_all context ts)
  unfolding update_all
  update_all-Counting start before context [] c h = c
  update_all-Counting start before context (t ∷ ts) c ((up, up'), h) =
      let (p, d, open', live) = c.live in
      update_all-Counting start t _ ts
        (rw (update_live context p d (shown t) open' live)
          (take_stats-Counting start before t context c up up'))
        h

  reset-Counting :
      (context : Context P) (p : P) (d : CString) (start : Seen)
      → context.handle ≡ some p
      → context.device ≡ some d
      → context.rollover_recv ≡ 0
      → context.rollover_drop ≡ 0
      → start.received < 2 ^ 63
      → start.dropped < 2 ^ 63
      → Counting start start (pcap_daq_reset_stats context (some (shown start)))
  unfolding rebase
  reset-Counting context p d start open' live no_recv no_drop small small' =
      rw (reset_live context p d (shown start) open' live) (record {
        live = (p, d, open', live);
        recv = (omega arith, small, refl, omega (arith, no_recv));
        drop = (omega arith, small', refl, omega (arith, no_drop));
        base_recv = refl;
        base_drop = refl;
        received = omega arith;
        dropped = omega arith;
      })

  -- On a live handle whose roll-over is 0, a reset and any number of updates, each before a counter of
  -- libpcap has wrapped twice, leave the numbers of packets received and dropped since the reset,
  -- less one for every wrap.
  pub hw_counters_lem :
      (context : Context P) (p : P) (d : CString) (start : Seen) (ts : List Seen)
      → context.handle ≡ some p
      → context.device ≡ some d
      → context.rollover_recv ≡ 0
      → context.rollover_drop ≡ 0
      → start.received < 2 ^ 63
      → start.dropped < 2 ^ 63
      → Readings start ts
      → let now = last start ts in
        let stats = (update_all (pcap_daq_reset_stats context (some (shown start))) ts).stats in
        (stats.hw_packets_received + wraps start.received now.received
          ≡ now.received - start.received)
        × (stats.hw_packets_dropped + wraps start.dropped now.dropped ≡ now.dropped - start.dropped)
  hw_counters_lem context p d start ts open' live no_recv no_drop small small' readings =
      let c =
        update_all-Counting start start (pcap_daq_reset_stats context (some (shown start))) ts
          (reset-Counting context p d start open' live no_recv no_drop small small') readings in
      (c.received, c.dropped)
