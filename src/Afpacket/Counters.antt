-- ===== src/Afpacket/Counters.antt =====
-- os-daq-modules/daq_afpacket.c: the hardware counters over `update_hw_stats` and a stop.
use libdaq.Prelude.{
  ℕ, ◌+◌, ◌-◌, ◌%◌, ◌^◌, ◌≤◌, ◌<◌, List, [], ◌∷◌, Option, none, some, All, ◌≡◌, refl, arith,
}
use libdaq.Common.{Stats, state_started}
use libdaq.Afpacket.Peers.{Instance, Context}
use libdaq.Afpacket.Stats.{
  TpacketStats, add_hw, add_all_hw, update_hw_stats, afpacket_daq_stop, afpacket_daq_get_stats,
}

-- The kernel counts a dropped packet in both of its 32-bit numbers.
abbrev pub Counts : Option TpacketStats → Type 0
Counts none = Unit
Counts (some k) = (k.tp_drops ≤ k.tp_packets) × (k.tp_packets < 2 ^ 32)

abbrev pub seen : Option TpacketStats → ℕ
seen none = 0
seen (some k) = k.tp_packets - k.tp_drops

abbrev pub dropped : Option TpacketStats → ℕ
dropped none = 0
dropped (some k) = k.tp_drops

abbrev pub total : (Instance → ℕ) → List Instance → ℕ
total f [] = 0
total f (x ∷ xs) = f x + total f xs

abbrev pub CountsAll : (Instance → Option TpacketStats) → List Instance → Type 0
CountsAll getsockopt is = All (λ x. Counts (getsockopt x)) is

add_hw_lem :
    (stats : Stats) (k : Option TpacketStats)
    → Counts k
    → ((add_hw stats k).hw_packets_received % 2 ^ 64
        ≡ (stats.hw_packets_received + seen k) % 2 ^ 64)
      × ((add_hw stats k).hw_packets_dropped % 2 ^ 64
          ≡ (stats.hw_packets_dropped + dropped k) % 2 ^ 64)
unfolding add_hw
add_hw_lem stats none h = (omega arith, omega arith)
add_hw_lem stats (some k) (h, h') = (omega (arith, h, h'), omega arith)

add_all_hw_lem :
    (getsockopt : Instance → Option TpacketStats) (is : List Instance) (stats : Stats)
    → CountsAll getsockopt is
    → ((add_all_hw getsockopt is stats).hw_packets_received % 2 ^ 64
        ≡ (stats.hw_packets_received + total (λ x. seen (getsockopt x)) is) % 2 ^ 64)
      × ((add_all_hw getsockopt is stats).hw_packets_dropped % 2 ^ 64
          ≡ (stats.hw_packets_dropped + total (λ x. dropped (getsockopt x)) is) % 2 ^ 64)
unfolding add_all_hw
add_all_hw_lem getsockopt [] stats h = (omega arith, omega arith)
add_all_hw_lem getsockopt (x ∷ is) stats (h, h') =
    let (r, d) = add_hw_lem stats (getsockopt x) h in
    let (r', d') = add_all_hw_lem getsockopt is (add_hw stats (getsockopt x)) h' in
    (omega (arith, r, r'), omega (arith, d, d'))

-- If the kernel counts each dropped packet as a packet too, the counters of a started instance go up
-- by the packets that were not dropped and by those that were, over all of its interfaces, modulo 2^64.
pub update_hw_lem :
    (getsockopt : Instance → Option TpacketStats) (afpc : Context)
    → afpc.state ≡ state_started
    → CountsAll getsockopt afpc.instances
    → ((update_hw_stats getsockopt afpc).stats.hw_packets_received % 2 ^ 64
        ≡ (afpc.stats.hw_packets_received + total (λ x. seen (getsockopt x)) afpc.instances)
          % 2 ^ 64)
      × ((update_hw_stats getsockopt afpc).stats.hw_packets_dropped % 2 ^ 64
          ≡ (afpc.stats.hw_packets_dropped + total (λ x. dropped (getsockopt x)) afpc.instances)
            % 2 ^ 64)
unfolding update_hw_stats
update_hw_lem getsockopt afpc started h =
    rw started (add_all_hw_lem getsockopt afpc.instances afpc.stats h)

-- A stop keeps the statistics that could be read just before it, whatever the kernel answers later.
pub get_stats-stop :
    (getsockopt later : Instance → Option TpacketStats) (afpc : Context)
    → (afpacket_daq_get_stats later (afpacket_daq_stop getsockopt afpc).1).1
      ≡ (afpacket_daq_get_stats getsockopt afpc).1
unfolding afpacket_daq_get_stats afpacket_daq_stop
get_stats-stop getsockopt later afpc = refl
