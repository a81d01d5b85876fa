-- ===== src/Afpacket/AcquireTests.antt =====
-- Two bridged interfaces with a packet each, and the theorems on the acquire loop.
use libdaq.Prelude.{
  ℕ, zero, suc, ◌+◌, ◌%◌, ◌^◌, ◌≤◌, ◌<◌, ℤ, pos, codes, [], ◌∷◌, get_elem?, none, some, true, false,
  ◌≡◌, inr, refl, sym, ap, arith,
}
use libdaq.Common.{no_stats, state_started}
use libdaq.Module.{Callback}
use libdaq.Afpacket.Peers.{RxFrame, Instance, Context}
use libdaq.Afpacket.Vlan.{has_tag, tag_of}
use libdaq.Afpacket.Tags.{on_wire}
use libdaq.Afpacket.Acquire.{Polled, Outcome, afpacket_daq_acquire}
use libdaq.Afpacket.Safety.{value_or, SoundAll, Sound, SoundFrame}
use libdaq.Common.{Config, mode_inline}
use libdaq.Afpacket.Limit.{Returns, state_of, afpacket_acquire_lem}

-- 14 bytes behind a header of 6, with VLAN 5 stripped.
abbrev sample_frame : RxFrame
sample_frame = record {
  tp_status = 0x11;
  tp_len = 14;
  tp_snaplen = 14;
  tp_mac = 6;
  tp_sec = 1;
  tp_nsec = 2000;
  tp_vlan_tci = 5;
  tp_vlan_tpid = 0;
  raw = 0 ∷ 0 ∷ 0 ∷ 0 ∷ 0 ∷ 0 ∷ 1 ∷ 2 ∷ 3 ∷ 4 ∷ 5 ∷ 6 ∷ 7 ∷ 8 ∷ 9 ∷ 10 ∷ 11 ∷ 12 ∷ 8 ∷ 0 ∷ [];
}

with_tag :
    on_wire sample_frame
    ≡ 1 ∷ 2 ∷ 3 ∷ 4 ∷ 5 ∷ 6 ∷ 7 ∷ 8 ∷ 9 ∷ 10 ∷ 11 ∷ 12 ∷ 0x81 ∷ 0 ∷ 0 ∷ 5 ∷ 8 ∷ 0 ∷ []
unfolding has_tag tag_of
with_tag = refl

abbrev bridged : ℕ → ℤ → Instance
bridged peer index = record {
  name = codes "eth";
  index = index;
  peer = some peer;
  rx_ring = record { frames = sample_frame ∷ []; cursor = 0; frame_size = 20 };
  tx_ring = some (record {
    frames = record { available = true; len = 0; bytes = [] } ∷ [];
    cursor = 0;
    room = 18;
  });
}

abbrev two_bridged : Context
two_bridged = record {
  snaplen = pos 1518;
  filter = none;
  fcode = none;
  instances = bridged 1 (pos 1) ∷ bridged 0 (pos 2) ∷ [];
  break_loop = false;
  stats = no_stats;
  state = state_started;
  errbuf = [];
}

bridged-SoundRing :
    (i : ℕ) (f : RxFrame) → get_elem? (sample_frame ∷ []) i ≡ some f → SoundFrame 18 20 f
bridged-SoundRing zero f e =
    let same : sample_frame ≡ f = ap (value_or sample_frame) e in
    rw (sym same) (λ user. (omega arith, omega arith, omega arith, omega arith))
bridged-SoundRing (suc i) f e = absurd (ground (arith, e))

bridged-Sound : (peer : ℕ) (index : ℤ) → peer < 2 → Sound 18 true 2 (bridged peer index)
bridged-Sound peer index inside = record {
  rx = (omega arith, bridged-SoundRing);
  tx = λ inline. (omega arith, omega arith);
  peer = inr (refl, peer, refl, inside);
}

two_bridged-Sound :
    (i : ℕ) (x : Instance) → get_elem? two_bridged.instances i ≡ some x → Sound 18 true 2 x
two_bridged-Sound zero x e =
    let same : bridged 1 (pos 1) ≡ x = ap (value_or (bridged 1 (pos 1))) e in
    rw (sym same) (bridged-Sound 1 (pos 1) (omega arith))
two_bridged-Sound (suc zero) x e =
    let same : bridged 0 (pos 2) ≡ x = ap (value_or (bridged 0 (pos 2))) e in
    rw (sym same) (bridged-Sound 0 (pos 2) (omega arith))
two_bridged-Sound (suc (suc i)) x e = absurd (ground (arith, e))

-- The sum of the lengths; every packet passes.
abbrev sum_up : Callback ℕ
sum_up user hdr bytes = (user + hdr.caplen, 0, 0xff ∷ [])

afpacket_acquire_lem_example :
    (r : Outcome ℕ) × (afpacket_daq_acquire
        (λ code bytes len caplen. 1)
        (some sum_up)
        (λ user. false)
        (λ k is. is)
        (λ k. Polled.poll_timed_out)
        (pos 1)
        3
        two_bridged
        0
      ≡ some r)
    × Returns r
    × SoundAll 18 true 2 (state_of r).afpc.instances
    × ((state_of r).count ≤ 0 + 2)
    × ((state_of r).afpc.stats.packets_received % 2 ^ 64 ≡ (0 + (state_of r).count) % 2 ^ 64)
afpacket_acquire_lem_example =
    afpacket_acquire_lem (λ code bytes len caplen. 1) (some sum_up) (λ user. false) 18 true 2
      (λ k is. is) (λ k. Polled.poll_timed_out) (λ k is all. all) 0 3 two_bridged 0
      (refl, two_bridged-Sound)

-- Two interfaces and four megabytes.
abbrev pair_config : Config
pair_config = record {
  name = codes "e0:e1";
  snaplen = pos 1518;
  timeout = 0;
  mode = mode_inline;
  flags = 0;
  values = record { key = codes "buffer_size_mb"; value = some (codes "4") } ∷ [];
}
