-- ===== src/Common.antt =====
-- api/daq_common.h: return codes, verdicts, modes, states, type flags and the structures that the
-- library and the modules exchange. An enum is its number, as in C, where any value can be passed.
use libdaq.Prelude.{ℕ, ◌+◌, ◌%◌, ◌^◌, ℤ, pos, negsuc, CString, List, Option, get_or, set, replicate}

abbrev pub daq_success : ℤ
daq_success = pos 0

abbrev pub daq_error : ℤ
daq_error = negsuc 0

abbrev pub daq_error_nomem : ℤ
daq_error_nomem = negsuc 1

abbrev pub daq_error_nodev : ℤ
daq_error_nodev = negsuc 2

abbrev pub daq_error_notsup : ℤ
daq_error_notsup = negsuc 3

abbrev pub daq_error_nomod : ℤ
daq_error_nomod = negsuc 4

abbrev pub daq_error_noctx : ℤ
daq_error_noctx = negsuc 5

abbrev pub daq_error_inval : ℤ
daq_error_inval = negsuc 6

abbrev pub daq_error_exists : ℤ
daq_error_exists = negsuc 7

-- DAQ_Verdict.
abbrev pub verdict_pass : ℕ
verdict_pass = 0

abbrev pub verdict_block : ℕ
verdict_block = 1

abbrev pub verdict_replace : ℕ
verdict_replace = 2

abbrev pub verdict_whitelist : ℕ
verdict_whitelist = 3

abbrev pub verdict_blacklist : ℕ
verdict_blacklist = 4

abbrev pub verdict_ignore : ℕ
verdict_ignore = 5

abbrev pub verdict_retry : ℕ
verdict_retry = 6

abbrev pub max_daq_verdict : ℕ
max_daq_verdict = 7

-- DAQ_Mode.
abbrev pub mode_passive : ℕ
mode_passive = 0

abbrev pub mode_inline : ℕ
mode_inline = 1

abbrev pub mode_read_file : ℕ
mode_read_file = 2

abbrev pub max_daq_mode : ℕ
max_daq_mode = 3

-- DAQ_State.
abbrev pub state_uninitialized : ℕ
state_uninitialized = 0

abbrev pub state_initialized : ℕ
state_initialized = 1

abbrev pub state_started : ℕ
state_started = 2

abbrev pub state_stopped : ℕ
state_stopped = 3

abbrev pub state_unknown : ℕ
state_unknown = 4

abbrev pub max_daq_state : ℕ
max_daq_state = 5

-- DAQ_TYPE_* flags.
abbrev pub type_file_capable : ℕ
type_file_capable = 0x01

abbrev pub type_intf_capable : ℕ
type_intf_capable = 0x02

abbrev pub type_inline_capable : ℕ
type_inline_capable = 0x04

abbrev pub type_multi_instance : ℕ
type_multi_instance = 0x08

abbrev pub type_no_unpriv : ℕ
type_no_unpriv = 0x10

-- DAQ_CAPA_* flags.
abbrev pub capa_block : ℕ
capa_block = 0x01

abbrev pub capa_replace : ℕ
capa_replace = 0x02

abbrev pub capa_inject : ℕ
capa_inject = 0x04

-- DAQ_Dict: a key and a value that may be NULL; the `next` links are the list.
pub record DictEntry : Type 0 where
  pub key : CString
  pub value : Option CString

-- DAQ_Config_t. `extra`, through which a wrapping module gets its delegate, is an argument there.
pub record Config : Type 0 where
  pub name : CString
  pub snaplen : ℤ
  pub timeout : ℕ
  pub mode : ℕ
  pub flags : ℕ
  pub values : List DictEntry

-- DAQ_Stats_t; `verdicts` has max_daq_verdict counters.
pub record Stats : Type 0 where
  pub hw_packets_received : ℕ
  pub hw_packets_dropped : ℕ
  pub packets_received : ℕ
  pub packets_filtered : ℕ
  pub packets_injected : ℕ
  pub verdicts : List ℕ

-- The zeroed structure of `calloc` and `memset`.
abbrev pub no_stats : Stats
no_stats = record {
  hw_packets_received = 0;
  hw_packets_dropped = 0;
  packets_received = 0;
  packets_filtered = 0;
  packets_injected = 0;
  verdicts = replicate max_daq_verdict 0;
}

-- DAQ_PktHdr_t, as far as a module of this repository fills it or reads it.
pub record PktHdr : Type 0 where
  pub tv_sec : ℕ
  pub tv_usec : ℕ
  pub caplen : ℕ
  pub pktlen : ℕ
  pub ingress_index : ℤ
  pub egress_index : ℤ
  pub ingress_group : ℤ
  pub egress_group : ℤ
  pub flags : ℕ
  pub address_space_id : ℕ

-- `x++` on a uint64_t.
abbrev pub inc64 : ℕ → ℕ
inc64 x = (x + 1) % 2 ^ 64

-- `verdicts[v]++`.
abbrev pub count_verdict : List ℕ → ℕ → List ℕ
count_verdict vs v = set vs v (inc64 (get_or vs v 0))

-- The other DAQ_CAPA_* flags that the modules name.
abbrev pub capa_unpriv_start : ℕ
capa_unpriv_start = 0x20

abbrev pub capa_breakloop : ℕ
capa_breakloop = 0x40

abbrev pub capa_bpf : ℕ
capa_bpf = 0x80

abbrev pub capa_device_index : ℕ
capa_device_index = 0x100

abbrev pub capa_inject_raw : ℕ
capa_inject_raw = 0x200

-- DAQ_READFILE_EOF.
abbrev pub daq_readfile_eof : ℤ
daq_readfile_eof = negsuc 41
