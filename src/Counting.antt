-- ===== src/Counting.antt =====
-- The counters of DAQ_Stats_t (api/daq_common.h) as daq_ipfw.c, daq_nfq.c and daq_ipq.c under os-daq-modules/
-- let them go up: for packets that a filter keeps back and for verdicts of the application.
use libdaq.Prelude.{
  ℕ, ◌+◌, ◌%◌, ◌^◌, ◌<◌, List, [], ◌∷◌, ◌++◌, length, length-append, length-set, get_or, leb,
  if◌then◌else◌, ◌≡◌, refl, ◌∙◌, arith,
}
use libdaq.Common.{Stats, inc64, count_verdict, max_daq_verdict, verdict_block}
use libdaq.Dump.Capture.{occurrences, count_step}

-- `if ( verdict >= MAX_DAQ_VERDICT ) verdict = DAQ_VERDICT_BLOCK;`
abbrev pub clamp : ℕ → ℕ
clamp v = if leb max_daq_verdict v then verdict_block else v

pub clamp_bound : (v : ℕ) → clamp v < max_daq_verdict
clamp_bound v = ground arith

-- The counters after `n` packets: `vs` are the verdicts that the application gave.
pub record Counted (n : ℕ) (st st' : Stats) (vs : List ℕ) : Type 0 where
  pub seen : st'.hw_packets_received % 2 ^ 64 ≡ (st.hw_packets_received + n) % 2 ^ 64
  pub asked : st'.packets_received % 2 ^ 64 ≡ (st.packets_received + length vs) % 2 ^ 64
  pub filtered : (st'.packets_filtered + length vs) % 2 ^ 64 ≡ (st.packets_filtered + n) % 2 ^ 64
  pub injected : st'.packets_injected ≡ st.packets_injected
  pub verdicts :
      (v : ℕ)
      → get_or st'.verdicts v 0 % 2 ^ 64 ≡ (get_or st.verdicts v 0 + occurrences v vs) % 2 ^ 64
  pub sized : length st'.verdicts ≡ length st.verdicts

pub occurrences-append :
    (v : ℕ) (vs ws : List ℕ) → occurrences v (vs ++ ws) ≡ occurrences v vs + occurrences v ws
unfolding occurrences
occurrences-append v [] ws = omega arith
occurrences-append v (u ∷ vs) ws = ground (arith, occurrences-append v vs ws)

pub Counted-nil : (st : Stats) → Counted 0 st st []
unfolding occurrences
Counted-nil st = record {
  seen = omega arith;
  asked = omega arith;
  filtered = omega arith;
  injected = refl;
  verdicts = λ v. omega arith;
  sized = refl;
}

-- Some packets, then others.
pub Counted-append :
    (m n k : ℕ) (st s1 s2 : Stats) (vs ws : List ℕ)
    → m + n ≡ k
    → Counted m st s1 vs
    → Counted n s1 s2 ws
    → Counted k st s2 (vs ++ ws)
Counted-append m n k st s1 s2 vs ws e c d =
    let longer = length-append vs ws in
    record {
      seen = omega (arith, e, c.seen, d.seen);
      asked = omega (arith, longer, c.asked, d.asked);
      filtered = omega (arith, e, longer, c.filtered, d.filtered);
      injected = d.injected ∙ c.injected;
      verdicts = λ v. omega (arith, occurrences-append v vs ws, c.verdicts v, d.verdicts v);
      sized = d.sized ∙ c.sized;
    }

-- `stats.hw_packets_received++`.
abbrev pub count_seen : Stats → Stats
count_seen st = record st { hw_packets_received = inc64 st.hw_packets_received }

-- `stats.packets_filtered++`.
abbrev pub count_filtered : Stats → Stats
count_filtered st = record st { packets_filtered = inc64 st.packets_filtered }

-- `stats.verdicts[verdict]++; stats.packets_received++;`
abbrev pub count_asked : ℕ → Stats → Stats
count_asked v st = record st {
  verdicts = count_verdict st.verdicts v;
  packets_received = inc64 st.packets_received;
}

pub count_filtered-Counted : (st : Stats) → Counted 1 st (count_seen (count_filtered st)) []
unfolding occurrences
count_filtered-Counted st = record {
  seen = omega arith;
  asked = omega arith;
  filtered = omega arith;
  injected = refl;
  verdicts = λ v. omega arith;
  sized = refl;
}

pub count_asked-Counted :
    (v : ℕ) (st : Stats)
    → length st.verdicts ≡ max_daq_verdict
    → Counted 1 st (count_seen (count_asked (clamp v) st)) (clamp v ∷ [])
unfolding occurrences
count_asked-Counted v st sized = record {
  seen = omega arith;
  asked = omega arith;
  filtered = omega arith;
  injected = refl;
  verdicts = λ w.
      ground (arith, count_step st.verdicts (clamp v) w 0 (omega (arith, clamp_bound v, sized)));
  sized = length-set st.verdicts (clamp v) (inc64 (get_or st.verdicts (clamp v) 0));
}
