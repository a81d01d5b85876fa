-- ===== src/Nfq.antt =====
-- os-daq-modules/daq_nfq.c: packets through a netfilter queue. `F` is a compiled filter and `U` what
-- the user pointer points to; libnetfilter_queue, libdnet, sfbpf and the allocator answer through
-- arguments.
pub mod Setup
pub mod Init
pub mod Acquire
pub mod Decisions
pub mod Packet
pub mod Runs
pub mod Handled
pub mod Loop
pub mod Forwarding
pub mod Ownership
pub mod Settings
pub mod Opening
pub mod Starting
mod Tests
use libdaq.Prelude.{
  ℕ, ℤ, pos, negsuc, eqb_ℤ, CString, codes, ◌++◌, List, [], Option, none, some, Bool, true, false,
  take, length, if◌then◌else◌, ◌==◌, bit_or, bit_and,
}
use libdaq.Common.{
  Stats, no_stats, inc64, daq_success, daq_error, daq_error_notsup, state_uninitialized,
  state_started, state_stopped, capa_block, capa_replace, capa_inject, capa_inject_raw,
  capa_breakloop, capa_unpriv_start, capa_bpf,
}
use libdaq.Netfilter.{Event, Resource, given_if, there, dlt_ipv4, dlt_ipv6}

-- NfqImpl. A pointer to what a library keeps is whether it is there; `fcode` is the program, if
-- `bf_insns` is there; `user_func` is a parameter of the functions that call it.
pub record NfqImpl (F U : Type 0) : Type 0 where
  pub protos : ℕ
  pub sock : ℤ
  pub qid : ℤ
  pub qlen : ℤ
  pub nf_handle : Bool
  pub nf_queue : Bool
  pub device : Option CString
  pub filter : Option CString
  pub fcode : Option F
  pub net : Bool
  pub link : Bool
  pub buf : Option (List ℕ)
  pub user_data : Option U
  pub count : ℤ
  pub passive : Bool
  pub snaplen : ℕ
  pub timeout : ℕ
  pub error : CString
  pub state : ℕ
  pub stats : Stats

-- `calloc`.
abbrev pub fresh_nfq : {F U : Type 0} → NfqImpl F U
fresh_nfq = record {
  protos = 0;
  sock = pos 0;
  qid = pos 0;
  qlen = pos 0;
  nf_handle = false;
  nf_queue = false;
  device = none;
  filter = none;
  fcode = none;
  net = false;
  link = false;
  buf = none;
  user_data = none;
  count = pos 0;
  passive = false;
  snaplen = 0;
  timeout = 0;
  error = [];
  state = state_uninitialized;
  stats = no_stats;
}

module _ {F U : Type 0} where
  -- `DPE(impl->error, ...)`.
  abbrev pub set_error : NfqImpl F U → CString → NfqImpl F U
  set_error impl text = record impl { error = take 255 text }

  -- `IP4(i)`.
  abbrev pub ip4 : NfqImpl F U → Bool
  ip4 impl = if bit_and impl.protos 1 == 0 then false else true

  -- `IP6(i)`.
  abbrev pub ip6 : NfqImpl F U → Bool
  ip6 impl = if bit_and impl.protos 2 == 0 then false else true

  -- `nfq_daq_get_datalink_type`.
  unfoldable pub nfq_daq_get_datalink_type : NfqImpl F U → ℕ
  nfq_daq_get_datalink_type impl = if ip4 impl then dlt_ipv4 else dlt_ipv6

  -- `nfq_daq_set_filter`, with the answers of sfbpf_compile and strdup; the latter is not looked at.
  unfoldable pub nfq_daq_set_filter :
      (ℕ → ℕ → CString → Option F)
      → (CString → Option CString)
      → NfqImpl F U
      → CString
      → ℤ × NfqImpl F U
  unfolding nfq_daq_get_datalink_type
  nfq_daq_set_filter compile strdup impl filter =
      elim (compile impl.snaplen (nfq_daq_get_datalink_type impl) filter) [
        | none ↦ (
          daq_error,
          set_error impl
              (codes "nfq_daq_set_filter: failed to compile bpf '" ++ (filter ++ codes "'")),
        )
        | some fcode ↦ (daq_success, record impl { filter = strdup filter; fcode = some fcode })
      ]

  -- `nfq_daq_start`.
  unfoldable pub nfq_daq_start : NfqImpl F U → ℤ × NfqImpl F U
  nfq_daq_start impl = (daq_success, record impl { state = state_started })

  -- `nfq_daq_breakloop`.
  unfoldable pub nfq_daq_breakloop : NfqImpl F U → ℤ × NfqImpl F U
  nfq_daq_breakloop impl = (daq_success, record impl { count = pos 0 })

  -- `nfq_daq_stop`.
  unfoldable pub nfq_daq_stop : NfqImpl F U → ℤ × NfqImpl F U
  nfq_daq_stop impl = (daq_success, record impl { state = state_stopped })

  -- What eth_send or ip_send answers for the bytes; 0 without either.
  abbrev pub nfq_sent : (List ℕ → ℤ) → (List ℕ → ℤ) → NfqImpl F U → List ℕ → ℤ
  nfq_sent eth_send ip_send impl bytes =
      if impl.link then eth_send bytes else if impl.net then ip_send bytes else pos 0

  -- `nfq_daq_inject`.
  unfoldable pub nfq_daq_inject :
      (List ℕ → ℤ) → (List ℕ → ℤ) → NfqImpl F U → List ℕ → ℤ × NfqImpl F U
  nfq_daq_inject eth_send ip_send impl bytes =
      if eqb_ℤ (nfq_sent eth_send ip_send impl bytes) (pos (length bytes))
      then (
        daq_success,
        record impl {
          stats = record impl.stats { packets_injected = inc64 impl.stats.packets_injected };
        },
      )
      else (daq_error, set_error impl (codes "nfq_daq_inject: failed to send"))

  -- `nfq_daq_check_status`.
  unfoldable pub nfq_daq_check_status : NfqImpl F U → ℕ
  nfq_daq_check_status impl = impl.state

  -- `nfq_daq_get_stats`.
  unfoldable pub nfq_daq_get_stats : NfqImpl F U → ℤ × Stats
  nfq_daq_get_stats impl = (daq_success, impl.stats)

  -- `nfq_daq_reset_stats`.
  unfoldable pub nfq_daq_reset_stats : NfqImpl F U → NfqImpl F U
  nfq_daq_reset_stats impl = record impl { stats = no_stats }

  -- `nfq_daq_get_snaplen`.
  unfoldable pub nfq_daq_get_snaplen : NfqImpl F U → ℕ
  nfq_daq_get_snaplen impl = impl.snaplen

  -- `nfq_daq_get_capabilities`.
  unfoldable pub nfq_daq_get_capabilities : NfqImpl F U → ℕ
  nfq_daq_get_capabilities impl =
      let caps =
        bit_or
          (bit_or (bit_or (bit_or (bit_or capa_block capa_replace) capa_inject) capa_breakloop)
            capa_unpriv_start)
          capa_bpf in
      if impl.net then bit_or caps capa_inject_raw else caps

  -- `nfq_daq_get_errbuf`.
  unfoldable pub nfq_daq_get_errbuf : NfqImpl F U → CString
  nfq_daq_get_errbuf impl = impl.error

  -- `nfq_daq_set_errbuf`.
  unfoldable pub nfq_daq_set_errbuf : NfqImpl F U → Option CString → NfqImpl F U
  nfq_daq_set_errbuf impl none = set_error impl []
  nfq_daq_set_errbuf impl (some s) = set_error impl s

  -- `nfq_daq_get_device_index`.
  unfoldable pub nfq_daq_get_device_index : NfqImpl F U → CString → ℤ
  nfq_daq_get_device_index impl device = daq_error_notsup

  -- `nfq_daq_shutdown`: what it closes and frees; the text of a filter is left out.
  unfoldable pub nfq_daq_shutdown : NfqImpl F U → List Event
  nfq_daq_shutdown impl = given_if impl.nf_queue Resource.queue (
      given_if impl.nf_handle Resource.library_handle (
        given_if impl.link Resource.link (
          given_if impl.net Resource.net
            (given_if (there impl.buf) Resource.buffer (given_if true Resource.context [])))))
