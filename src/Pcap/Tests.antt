-- ===== src/Pcap/Tests.antt =====
-- A libpcap whose handles are numbers, and the theorems on the pcap module.
use libdaq.Prelude.{
  ℕ, suc, ◌+◌, ◌-◌, ◌%◌, ◌^◌, ◌≤◌, ℤ, pos, CString, codes, [], ◌∷◌, Option, none, some, ◌≡◌, ◌⊎◌,
  inl, refl, arith, zero,
}
use libdaq.Common.{no_stats, daq_success, daq_error, state_started, state_initialized}
use libdaq.Module.{Callback}
use libdaq.Pcap.{Libpcap, PcapStat, Context, fresh_context}
use libdaq.Pcap.Hardware.{update_hw_stats, pcap_daq_reset_stats}
use libdaq.Pcap.Counters.{Seen, shown, wraps, update_all, hw_counters_lem}
use libdaq.Pcap.Acquire.{Delivered, Dispatch, pcap_daq_acquire}
use libdaq.Pcap.Loop.{Obeys, IsCode, acquire_lem}
use libdaq.Pcap.Restart.{get_stats-pcap_stop}
use libdaq.Pcap.Filter.{pcap_daq_start}
use libdaq.Pcap.Start.{IsOpen, start_lem}
use libdaq.Pcap.Table.{pcap_daq_get_stats, pcap_daq_stop}

-- Every setting adds its number to the handle; a filter is its own code.
abbrev libpcap : Libpcap ℕ CString
libpcap = record {
  create = λ name. (some 1, codes "");
  open_offline = λ name. (some 2, codes "");
  set_immediate_mode = λ p n. (p, pos 0);
  set_snaplen = λ p n. (p, pos 0);
  set_promisc = λ p n. (p, pos 0);
  set_timeout = λ p n. (p + n, pos 0);
  set_buffer_size = λ p n. (p, pos 0);
  activate = λ p. (p + 10, pos 0);
  lookupnet = λ name. none;
  open_dead = λ link snaplen. some 0;
  compile = λ p text net. some text;
  setfilter = λ p code. some (p + 100);
  breakloop = λ p. p;
  snapshot = λ p. pos 1500;
  datalink = λ p. pos 1;
  geterr = λ p. codes "error";
  statustostr = λ n. codes "status";
  htonl = λ n. n;
}

abbrev device_context : Context ℕ
device_context = record fresh_context {
  device = some (codes "eth0");
  filter_string = some (codes "tcp");
  timeout = 1000;
  state = state_initialized;
}

abbrev live_context : Context ℕ
live_context = record device_context { handle = some 7; state = state_started }

abbrev seen : ℕ → ℕ → Seen
seen received dropped = record { received = received; dropped = dropped }

-- A counter of 32 bits wraps between the first two readings.
hw_counters_lem_example :
    let start = seen 4_294_967_000 5 in
    let ts = seen 4_294_967_500 6 ∷ seen 4_294_968_000 9 ∷ [] in
    let stats =
      (update_all libpcap (pcap_daq_reset_stats live_context (some (shown start))) ts).stats in
    (stats.hw_packets_received + wraps 4_294_967_000 4_294_968_000 ≡ 4_294_968_000 - 4_294_967_000)
    × (stats.hw_packets_dropped + wraps 5 9 ≡ 9 - 5)
hw_counters_lem_example =
    hw_counters_lem libpcap live_context 7 (codes "eth0") (seen 4_294_967_000 5)
      (seen 4_294_967_500 6 ∷ seen 4_294_968_000 9 ∷ []) refl refl refl refl (omega arith)
      (omega arith)
      (
        ((omega arith, omega arith, omega arith), (omega arith, omega arith, omega arith)),
        (((omega arith, omega arith, omega arith), (omega arith, omega arith, omega arith)), tt),
      )

abbrev packet : Delivered
packet = record {
  tv_sec = 1;
  tv_usec = 2;
  caplen = 3;
  len = 3;
  data' = 1 ∷ 2 ∷ 3 ∷ [];
  answer = none;
}

-- A packet in every round of the first two.
one_each : ℕ → ℤ → Dispatch
one_each zero (pos (suc n)) = record { delivered = packet ∷ []; ret = pos 1 }
one_each (suc zero) (pos (suc n)) = record { delivered = packet ∷ []; ret = pos 1 }
one_each k n = record { delivered = []; ret = pos 0 }

one_each-Obeys : Obeys one_each
unfolding one_each
one_each-Obeys zero zero = (omega arith, inl refl)
one_each-Obeys zero (suc n) = (omega arith, inl refl)
one_each-Obeys (suc zero) zero = (omega arith, inl refl)
one_each-Obeys (suc zero) (suc n) = (omega arith, inl refl)
one_each-Obeys (suc (suc k)) n = (omega arith, inl refl)

abbrev count_all : Callback ℕ
count_all user hdr data' = (user + hdr.caplen, 0, data')

acquire_lem_example :
    (code : ℤ) × (context' : Context ℕ) × (user' : ℕ) × (pcap_daq_acquire libpcap count_all one_each
        (pos 3)
        3
        live_context
        0
      ≡ some (code, context', user'))
    × IsCode code
    × (context'.packets ≤ 3)
    × (context'.stats.packets_received % 2 ^ 64 ≡ (0 + context'.packets) % 2 ^ 64)
acquire_lem_example = acquire_lem libpcap count_all one_each one_each-Obeys 2 live_context 7 0 refl

get_stats-pcap_stop_example :
    let answer : Option PcapStat = some (record { ps_recv = 10; ps_drop = 2 }) in
    (pcap_daq_get_stats libpcap (pcap_daq_stop libpcap live_context answer).1 none no_stats).2
    ≡ (pcap_daq_get_stats libpcap live_context answer no_stats).2
unfolding pcap_daq_get_stats update_hw_stats
get_stats-pcap_stop_example =
    get_stats-pcap_stop libpcap live_context (some (record { ps_recv = 10; ps_drop = 2 })) none
      no_stats refl

start_lem_example :
    (code : ℤ) × (c' : Context ℕ) × (pcap_daq_start libpcap some
        (some (shown (seen 3 1)))
        device_context
      ≡ some (code, c'))
    × (((code ≡ daq_success) × IsOpen c' × (c'.filter_string ≡ none) × (c'.state ≡ state_started))
        ⊎ ((code ≡ daq_error) × (c'.state ≡ device_context.state)))
start_lem_example =
    start_lem libpcap some (some (shown (seen 3 1))) device_context (codes "eth0") (inl refl)
