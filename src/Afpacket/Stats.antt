-- ===== src/Afpacket/Stats.antt =====
-- os-daq-modules/daq_afpacket.c: the counters, the states and the small functions of the table.
use libdaq.Prelude.{
  ℕ, ◌+◌, ◌-◌, ◌%◌, ◌^◌, ℤ, CString, List, [], ◌∷◌, Option, none, some, true, ◌==◌, take,
  if◌then◌else◌,
}
use libdaq.Common.{Stats, no_stats, daq_success, state_started, state_stopped}
use libdaq.Afpacket.Peers.{Instance, Context, device_index}

-- struct tpacket_stats; the kernel counts dropped packets in `tp_packets` too.
pub record TpacketStats : Type 0 where
  pub tp_packets : ℕ
  pub tp_drops : ℕ

-- One round of `update_hw_stats`; none is a getsockopt that fails.
unfoldable pub add_hw : Stats → Option TpacketStats → Stats
add_hw stats none = stats
add_hw stats (some k) = record stats {
  hw_packets_received =
      (stats.hw_packets_received + (k.tp_packets + (2 ^ 32 - k.tp_drops)) % 2 ^ 32) % 2 ^ 64;
  hw_packets_dropped = (stats.hw_packets_dropped + k.tp_drops) % 2 ^ 64;
}

unfoldable pub add_all_hw : (Instance → Option TpacketStats) → List Instance → Stats → Stats
unfolding add_hw
add_all_hw getsockopt [] stats = stats
add_all_hw getsockopt (instance ∷ is) stats =
    add_all_hw getsockopt is (add_hw stats (getsockopt instance))

module _ (getsockopt : Instance → Option TpacketStats) where
  -- `update_hw_stats`.
  unfoldable pub update_hw_stats : Context → Context
  unfolding add_all_hw
  update_hw_stats afpc =
      if afpc.state == state_started
      then record afpc { stats = add_all_hw getsockopt afpc.instances afpc.stats }
      else afpc

  -- `af_packet_close`, on a context: every instance is destroyed.
  unfoldable pub af_packet_close : Context → Context
  unfolding update_hw_stats
  af_packet_close afpc = record (update_hw_stats afpc) { instances = []; state = state_stopped }

  -- `afpacket_daq_stop`.
  unfoldable pub afpacket_daq_stop : Context → ℤ × Context
  unfolding af_packet_close
  afpacket_daq_stop afpc = (daq_success, af_packet_close afpc)

  -- `afpacket_daq_get_stats`: the context, `*stats` and the code.
  unfoldable pub afpacket_daq_get_stats : Context → Context × Stats × ℤ
  unfolding update_hw_stats
  afpacket_daq_get_stats afpc =
      let afpc' = update_hw_stats afpc in (afpc', afpc'.stats, daq_success)

-- `reset_stats`: reading the kernel's counters clears them.
unfoldable pub reset_stats : Context → Context
reset_stats afpc = record afpc { stats = no_stats }

-- `afpacket_daq_reset_stats`.
unfoldable pub afpacket_daq_reset_stats : Context → Context
unfolding reset_stats
afpacket_daq_reset_stats afpc = reset_stats afpc

-- `afpacket_daq_breakloop`.
unfoldable pub afpacket_daq_breakloop : Context → ℤ × Context
afpacket_daq_breakloop afpc = (daq_success, record afpc { break_loop = true })

-- `afpacket_daq_check_status`.
unfoldable pub afpacket_daq_check_status : Context → ℕ
afpacket_daq_check_status afpc = afpc.state

-- `afpacket_daq_get_snaplen`.
unfoldable pub afpacket_daq_get_snaplen : Context → ℤ
afpacket_daq_get_snaplen afpc = afpc.snaplen

-- `afpacket_daq_get_errbuf`.
unfoldable pub afpacket_daq_get_errbuf : Context → CString
afpacket_daq_get_errbuf afpc = afpc.errbuf

-- `afpacket_daq_set_errbuf`; a NULL text changes nothing.
unfoldable pub afpacket_daq_set_errbuf : Context → Option CString → Context
afpacket_daq_set_errbuf afpc none = afpc
afpacket_daq_set_errbuf afpc (some text) = record afpc { errbuf = take 255 text }

-- `afpacket_daq_get_device_index`.
unfoldable pub afpacket_daq_get_device_index : Context → CString → ℤ
afpacket_daq_get_device_index afpc device = device_index afpc.instances device
