-- ===== src/Pcap.antt =====
-- os-daq-modules/daq_pcap.c: packets through libpcap, live or from a file. `P` is a pcap_t and `F` a
-- compiled filter; what libpcap does is an argument. The code is that of a libpcap with pcap_create
-- (PCAP_OLDSTYLE not defined).
pub mod Open
pub mod Hardware
pub mod Init
pub mod Filter
pub mod Acquire
pub mod Table
pub mod Counters
pub mod Loop
pub mod Restart
pub mod Start
mod Tests
use libdaq.Prelude.{ℕ, ℤ, CString, List, Option, none, take, Bool, false}
use libdaq.Common.{Stats, PktHdr, no_stats, state_uninitialized}

pub record Libpcap (P F : Type 0) : Type 0 where
  -- The handle, and the text left in the error buffer.
  pub create : CString → Option P × CString
  pub open_offline : CString → Option P × CString
  pub set_immediate_mode : P → ℤ → P × ℤ
  pub set_snaplen : P → ℤ → P × ℤ
  pub set_promisc : P → ℤ → P × ℤ
  pub set_timeout : P → ℕ → P × ℤ
  pub set_buffer_size : P → ℤ → P × ℤ
  pub activate : P → P × ℤ
  -- The text of a lookup that fails.
  pub lookupnet : CString → Option CString
  pub open_dead : ℤ → ℤ → Option P
  pub compile : P → CString → ℕ → Option F
  pub setfilter : P → F → Option P
  pub breakloop : P → P
  pub snapshot : P → ℤ
  pub datalink : P → ℤ
  pub geterr : P → CString
  pub statustostr : ℤ → CString
  pub htonl : ℕ → ℕ

-- `struct pcap_stat`: two 32-bit counters.
pub record PcapStat : Type 0 where
  pub ps_recv : ℕ
  pub ps_drop : ℕ

-- Pcap_Context_t; the callback and its data stand in `pcap_daq_acquire`.
pub record Context (P : Type 0) : Type 0 where
  pub device : Option CString
  pub file : Option CString
  pub filter_string : Option CString
  pub snaplen : ℤ
  pub handle : Option P
  pub errbuf : CString
  pub promisc_flag : ℕ
  pub immediate_flag : ℤ
  pub timeout : ℕ
  pub buffer_size : ℤ
  pub packets : ℕ
  pub delayed_open : Bool
  pub netmask : ℕ
  pub stats : Stats
  pub base_recv : ℕ
  pub base_drop : ℕ
  pub rollover_recv : ℕ
  pub rollover_drop : ℕ
  pub wrap_recv : ℕ
  pub wrap_drop : ℕ
  pub state : ℕ
  pub hwupdate_count : ℕ

-- `calloc`.
abbrev pub fresh_context : {P : Type 0} → Context P
fresh_context = record {
  device = none;
  file = none;
  filter_string = none;
  snaplen = ℤ.pos 0;
  handle = none;
  errbuf = List.[];
  promisc_flag = 0;
  immediate_flag = ℤ.pos 0;
  timeout = 0;
  buffer_size = ℤ.pos 0;
  packets = 0;
  delayed_open = false;
  netmask = 0;
  stats = no_stats;
  base_recv = 0;
  base_drop = 0;
  rollover_recv = 0;
  rollover_drop = 0;
  wrap_recv = 0;
  wrap_drop = 0;
  state = state_uninitialized;
  hwupdate_count = 0;
}

-- `DPE(context->errbuf, ...)`.
abbrev pub set_error : {P : Type 0} → Context P → CString → Context P
set_error context text = record context { errbuf = take 255 text }
