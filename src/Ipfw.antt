-- ===== src/Ipfw.antt =====
-- os-daq-modules/daq_ipfw.c: packets through one divert socket. `F` is a compiled filter; the sockets,
-- sfbpf and the allocator answer through arguments.
pub mod Setup
pub mod Acquire
pub mod Ports
pub mod Decisions
pub mod Packet
pub mod Forwarding
mod Tests
use libdaq.Prelude.{
  ℕ, ◌+◌, ℤ, pos, negsuc, CString, codes, ◌++◌, List, [], ◌∷◌, Option, none, some, Bool, true,
  false, take, length, if◌then◌else◌, bit_or,
}
use libdaq.Common.{
  Stats, PktHdr, no_stats, inc64, daq_success, daq_error, daq_error_notsup, state_uninitialized,
  state_started, state_stopped, capa_block, capa_replace, capa_inject, capa_inject_raw,
  capa_breakloop, capa_unpriv_start, capa_bpf,
}

-- `struct sockaddr_in`.
pub record SockAddrIn : Type 0 where
  pub sin_family : ℕ
  pub s_addr : ℕ
  pub sin_port : ℕ

-- IpfwImpl; `fcode` is the program, if `bf_insns` is there.
pub record IpfwImpl (F : Type 0) : Type 0 where
  pub sock : ℤ
  pub port : ℤ
  pub proto : ℕ
  pub count : ℤ
  pub passive : Bool
  pub timeout : ℕ
  pub snaplen : ℕ
  pub buf : List ℕ
  pub filter : Option CString
  pub error : CString
  pub fcode : Option F
  pub sin : SockAddrIn
  pub state : ℕ
  pub stats : Stats

-- `calloc`.
abbrev pub fresh_ipfw : {F : Type 0} → IpfwImpl F
fresh_ipfw = record {
  sock = pos 0;
  port = pos 0;
  proto = 0;
  count = pos 0;
  passive = false;
  timeout = 0;
  snaplen = 0;
  buf = [];
  filter = none;
  error = [];
  fcode = none;
  sin = record { sin_family = 0; s_addr = 0; sin_port = 0 };
  state = state_uninitialized;
  stats = no_stats;
}

-- What goes out through the socket: the bytes, and the address.
pub record Datagram : Type 0 where
  pub bytes : List ℕ
  pub dest : SockAddrIn

module _ {F : Type 0} where
  -- `DPE(impl->error, ...)`.
  abbrev pub set_error : IpfwImpl F → CString → IpfwImpl F
  set_error impl text = record impl { error = take 255 text }

  abbrev pub socket_error : IpfwImpl F → CString → CString → CString → IpfwImpl F
  socket_error impl function what strerror = set_error impl (
      function
      ++ (codes ": can't " ++ (what ++ (codes " divert socket (" ++ (strerror ++ codes ")\n")))))

  -- `ipfw_daq_set_filter`, with the answers of sfbpf_compile and strdup; the latter is not looked at.
  unfoldable pub ipfw_daq_set_filter :
      (ℕ → CString → Option F) → (CString → Option CString) → IpfwImpl F → CString → ℤ × IpfwImpl F
  ipfw_daq_set_filter compile strdup impl filter = elim (compile impl.snaplen filter) [
    | none ↦ (daq_error, impl)
    | some fcode ↦ (daq_success, record impl { filter = strdup filter; fcode = some fcode })
  ]

  -- `ipfw_daq_start`: the descriptor that socket returns, whether bind succeeds, and strerror.
  unfoldable pub ipfw_daq_start : Option ℤ → Bool → CString → IpfwImpl F → ℤ × IpfwImpl F
  ipfw_daq_start none bound strerror impl = (
    daq_error,
    socket_error (record impl { sock = negsuc 0 }) (codes "ipfw_daq_start") (codes "create")
        strerror,
  )
  ipfw_daq_start (some sock) false strerror impl = (
    daq_error,
    socket_error (record impl { sock = sock }) (codes "ipfw_daq_start") (codes "bind") strerror,
  )
  ipfw_daq_start (some sock) true strerror impl =
      (daq_success, record impl { sock = sock; state = state_started })

  -- `ipfw_daq_stop`.
  unfoldable pub ipfw_daq_stop : IpfwImpl F → ℤ × IpfwImpl F
  ipfw_daq_stop impl = (daq_success, record impl { sock = negsuc 0; state = state_stopped })

  -- `ipfw_daq_forward`: whether sendto succeeds, strerror, and the datagrams so far.
  unfoldable pub ipfw_daq_forward :
      Bool → CString → IpfwImpl F → List ℕ → List Datagram → ℤ × IpfwImpl F × List Datagram
  ipfw_daq_forward true strerror impl bytes wire =
      (daq_success, impl, wire ++ (record { bytes = bytes; dest = impl.sin } ∷ []))
  ipfw_daq_forward false strerror impl bytes wire =
      (daq_error, socket_error impl (codes "ipfw_daq_forward") (codes "sendto") strerror, wire)

  -- `ipfw_daq_inject`.
  unfoldable pub ipfw_daq_inject :
      Bool → CString → IpfwImpl F → List ℕ → List Datagram → ℤ × IpfwImpl F × List Datagram
  unfolding ipfw_daq_forward
  ipfw_daq_inject true strerror impl bytes wire =
      let (code, impl', wire') = ipfw_daq_forward true strerror impl bytes wire in
      (
        code,
        record impl' {
          stats = record impl'.stats { packets_injected = inc64 impl'.stats.packets_injected };
        },
        wire',
      )
  ipfw_daq_inject false strerror impl bytes wire = ipfw_daq_forward false strerror impl bytes wire

  -- `ipfw_daq_breakloop`.
  unfoldable pub ipfw_daq_breakloop : IpfwImpl F → ℤ × IpfwImpl F
  ipfw_daq_breakloop impl = (daq_success, record impl { count = pos 0 })

  -- `ipfw_daq_check_status`.
  unfoldable pub ipfw_daq_check_status : IpfwImpl F → ℕ
  ipfw_daq_check_status impl = impl.state

  -- `ipfw_daq_get_stats`.
  unfoldable pub ipfw_daq_get_stats : IpfwImpl F → ℤ × Stats
  ipfw_daq_get_stats impl = (daq_success, impl.stats)

  -- `ipfw_daq_reset_stats`.
  unfoldable pub ipfw_daq_reset_stats : IpfwImpl F → IpfwImpl F
  ipfw_daq_reset_stats impl = record impl { stats = no_stats }

  -- `ipfw_daq_get_snaplen`.
  unfoldable pub ipfw_daq_get_snaplen : IpfwImpl F → ℕ
  ipfw_daq_get_snaplen impl = impl.snaplen

  -- `ipfw_daq_get_capabilities`.
  unfoldable pub ipfw_daq_get_capabilities : IpfwImpl F → ℕ
  ipfw_daq_get_capabilities impl =
      bit_or
        (bit_or
          (bit_or (bit_or (bit_or (bit_or capa_block capa_replace) capa_inject) capa_inject_raw)
            capa_breakloop)
          capa_unpriv_start)
        capa_bpf

  -- `ipfw_daq_get_errbuf`.
  unfoldable pub ipfw_daq_get_errbuf : IpfwImpl F → CString
  ipfw_daq_get_errbuf impl = impl.error

  -- `ipfw_daq_set_errbuf`.
  unfoldable pub ipfw_daq_set_errbuf : IpfwImpl F → Option CString → IpfwImpl F
  ipfw_daq_set_errbuf impl none = set_error impl []
  ipfw_daq_set_errbuf impl (some s) = set_error impl s

  -- `ipfw_daq_get_device_index`.
  unfoldable pub ipfw_daq_get_device_index : IpfwImpl F → CString → ℤ
  ipfw_daq_get_device_index impl device = daq_error_notsup
