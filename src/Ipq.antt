-- ===== src/Ipq.antt =====
-- os-daq-modules/daq_ipq.c: packets through the queue of libipq. `F` is a compiled filter; libipq, libdnet,
-- sfbpf and the allocator answer through arguments.
pub mod Setup
pub mod Init
pub mod Acquire
pub mod Decisions
pub mod Packet
pub mod Forwarding
pub mod Ownership
pub mod Settings
pub mod Starting
pub mod Life
mod Tests
use libdaq.Prelude.{
  ℕ, ℤ, pos, negsuc, eqb_ℤ, CString, codes, ◌++◌, List, [], Option, none, some, Bool, true, false,
  take, length, if◌then◌else◌, ◌==◌, bit_or,
}
use libdaq.Common.{
  Stats, no_stats, inc64, daq_success, daq_error, daq_error_notsup, state_uninitialized,
  state_started, state_stopped, capa_block, capa_replace, capa_inject, capa_inject_raw,
  capa_breakloop, capa_unpriv_start, capa_bpf,
}
use libdaq.Ipfw.Setup.{unsigned_of}
use libdaq.Netfilter.{Event, Resource, given_if, there, pf_inet, dlt_ipv4, dlt_ipv6}

-- IpqImpl. A pointer to what a library keeps is whether it is there; `fcode` is the program, if
-- `bf_insns` is there.
pub record IpqImpl (F : Type 0) : Type 0 where
  pub proto : ℕ
  pub device : Option CString
  pub ipqh : Bool
  pub net : Bool
  pub link : Bool
  pub filter : Option CString
  pub fcode : Option F
  pub buf : Option (List ℕ)
  pub error : CString
  pub count : ℤ
  pub passive : Bool
  pub snaplen : ℕ
  pub timeout : ℕ
  pub state : ℕ
  pub stats : Stats

-- `calloc`.
abbrev pub fresh_ipq : {F : Type 0} → IpqImpl F
fresh_ipq = record {
  proto = 0;
  device = none;
  ipqh = false;
  net = false;
  link = false;
  filter = none;
  fcode = none;
  buf = none;
  error = [];
  count = pos 0;
  passive = false;
  snaplen = 0;
  timeout = 0;
  state = state_uninitialized;
  stats = no_stats;
}

module _ {F : Type 0} where
  -- `DPE(impl->error, ...)`.
  abbrev pub set_error : IpqImpl F → CString → IpqImpl F
  set_error impl text = record impl { error = take 255 text }

  -- `ipq_daq_get_datalink_type`.
  unfoldable pub ipq_daq_get_datalink_type : IpqImpl F → ℕ
  ipq_daq_get_datalink_type impl = if impl.proto == pf_inet then dlt_ipv4 else dlt_ipv6

  -- `ipq_daq_set_filter`, with the answers of sfbpf_compile and strdup; the latter is not looked at.
  unfoldable pub ipq_daq_set_filter :
      (ℕ → ℕ → CString → Option F)
      → (CString → Option CString)
      → IpqImpl F
      → CString
      → ℤ × IpqImpl F
  unfolding ipq_daq_get_datalink_type
  ipq_daq_set_filter compile strdup impl filter =
      elim (compile impl.snaplen (ipq_daq_get_datalink_type impl) filter) [
        | none ↦ (
          daq_error,
          set_error impl (codes "ipq_daq_set_filter: failed to compile '" ++ (filter ++ codes "'")),
        )
        | some fcode ↦ (daq_success, record impl { filter = strdup filter; fcode = some fcode })
      ]

  -- `ipq_daq_start`.
  unfoldable pub ipq_daq_start : IpqImpl F → ℤ × IpqImpl F
  ipq_daq_start impl = (daq_success, record impl { state = state_started })

  -- `ipq_daq_breakloop`.
  unfoldable pub ipq_daq_breakloop : IpqImpl F → ℤ × IpqImpl F
  ipq_daq_breakloop impl = (daq_success, record impl { count = pos 0 })

  -- `ipq_daq_stop`.
  unfoldable pub ipq_daq_stop : IpqImpl F → ℤ × IpqImpl F
  ipq_daq_stop impl = (daq_success, record impl { state = state_stopped })

  -- What eth_send or ip_send answers for the bytes; 0 without either.
  abbrev pub ipq_sent : (List ℕ → ℤ) → (List ℕ → ℤ) → IpqImpl F → List ℕ → ℤ
  ipq_sent eth_send ip_send impl bytes =
      if impl.link then eth_send bytes else if impl.net then ip_send bytes else pos 0

  -- `ipq_daq_inject`.
  unfoldable pub ipq_daq_inject : (List ℕ → ℤ) → (List ℕ → ℤ) → IpqImpl F → List ℕ → ℤ × IpqImpl F
  ipq_daq_inject eth_send ip_send impl bytes =
      if unsigned_of (ipq_sent eth_send ip_send impl bytes) == length bytes
      then (
        daq_success,
        record impl {
          stats = record impl.stats { packets_injected = inc64 impl.stats.packets_injected };
        },
      )
      else (daq_error, set_error impl (codes "ipq_daq_inject: failed to send"))

  -- `ipq_daq_check_status`.
  unfoldable pub ipq_daq_check_status : IpqImpl F → ℕ
  ipq_daq_check_status impl = impl.state

  -- `ipq_daq_get_stats`.
  unfoldable pub ipq_daq_get_stats : IpqImpl F → ℤ × Stats
  ipq_daq_get_stats impl = (daq_success, impl.stats)

  -- `ipq_daq_reset_stats`.
  unfoldable pub ipq_daq_reset_stats : IpqImpl F → IpqImpl F
  ipq_daq_reset_stats impl = record impl { stats = no_stats }

  -- `ipq_daq_get_snaplen`.
  unfoldable pub ipq_daq_get_snaplen : IpqImpl F → ℕ
  ipq_daq_get_snaplen impl = impl.snaplen

  -- `ipq_daq_get_capabilities`.
  unfoldable pub ipq_daq_get_capabilities : IpqImpl F → ℕ
  ipq_daq_get_capabilities impl =
      let caps =
        bit_or
          (bit_or (bit_or (bit_or (bit_or capa_block capa_replace) capa_inject) capa_breakloop)
            capa_unpriv_start)
          capa_bpf in
      if impl.net then bit_or caps capa_inject_raw else caps

  -- `ipq_daq_get_errbuf`.
  unfoldable pub ipq_daq_get_errbuf : IpqImpl F → CString
  ipq_daq_get_errbuf impl = impl.error

  -- `ipq_daq_set_errbuf`.
  unfoldable pub ipq_daq_set_errbuf : IpqImpl F → Option CString → IpqImpl F
  ipq_daq_set_errbuf impl none = set_error impl []
  ipq_daq_set_errbuf impl (some s) = set_error impl s

  -- `ipq_daq_get_device_index`.
  unfoldable pub ipq_daq_get_device_index : IpqImpl F → CString → ℤ
  ipq_daq_get_device_index impl device = daq_error_notsup

  -- `ipq_daq_shutdown`: what it closes and frees; the text of a filter is left out.
  unfoldable pub ipq_daq_shutdown : IpqImpl F → List Event
  ipq_daq_shutdown impl = given_if impl.ipqh Resource.library_handle (
      given_if (there impl.device) Resource.device_text (
        given_if impl.link Resource.link (
          given_if impl.net Resource.net
            (given_if (there impl.buf) Resource.buffer (given_if true Resource.context [])))))
