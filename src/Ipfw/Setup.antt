-- ===== src/Ipfw/Setup.antt =====
-- os-daq-modules/daq_ipfw.c: `ipfw_daq_get_setup` and `ipfw_daq_initialize`.
use libdaq.Prelude.{
  ℕ, zero, suc, ◌+◌, ◌-◌, ◌%◌, ◌^◌, ℤ, pos, negsuc, CString, codes, str_eq, strtol, to_int, take,
  List, [], ◌∷◌, ◌++◌, Option, none, some, Bool, true, false, ◌==◌, ◌||◌, ltb, if◌then◌else◌,
}
use libdaq.Common.{
  Config, DictEntry, daq_success, daq_error, daq_error_nomem, mode_passive, state_initialized,
}
use libdaq.Module.{InitReply}
use libdaq.Ipfw.{IpfwImpl, fresh_ipfw}

-- DEFAULT_PORT.
abbrev pub default_port : ℤ
default_port = pos 8000

-- IP_MAXPACKET of <netinet/ip.h>.
abbrev pub ip_maxpacket : ℕ
ip_maxpacket = 65535

-- PF_INET of <sys/socket.h>.
abbrev pub pf_inet : ℕ
pf_inet = 2

-- `port <= 0 || port > 65535`.
unfoldable pub bad_port : ℤ → Bool
bad_port (negsuc n) = true
bad_port (pos n) = n == 0 || ltb 65535 n

-- An int as an unsigned int.
abbrev pub unsigned_of : ℤ → ℕ
unsigned_of (pos n) = n % 2 ^ 32
unsigned_of (negsuc n) = 2 ^ 32 - 1 - n

-- `snaplen ? snaplen : IP_MAXPACKET`.
unfoldable pub snaplen_of : ℤ → ℕ
snaplen_of (pos zero) = ip_maxpacket
snaplen_of (pos (suc n)) = unsigned_of (pos (suc n))
snaplen_of (negsuc n) = unsigned_of (negsuc n)

-- The part of a port from the digits on: a text that does not end there is refused.
unfoldable pub read_port : ℤ × CString → Option ℤ
unfolding bad_port
read_port (n, []) = if bad_port (to_int n) then none else some (to_int n)
read_port (n, c ∷ end) = none

abbrev setup_error : CString → CString
setup_error text = codes "ipfw_daq_get_setup: " ++ text

-- One round of the loop: the port, or the text of an error.
pub data Variable : Type 0 where
  port_is : ℤ → Variable
  refused : CString → Variable

unfoldable pub needs_value : CString → Variable
needs_value key =
    Variable.refused (setup_error (codes "variable needs value (" ++ (key ++ codes ")\n")))

-- The branches of an entry with a value.
unfoldable pub read_value : CString → CString → Variable
unfolding read_port
read_value key value =
    if str_eq key (codes "port")
    then (elim (read_port (strtol value 0)) [
      | none ↦ Variable.refused (setup_error (codes "bad port (" ++ (value ++ codes ")\n")))
      | some port ↦ Variable.port_is port
    ])
    else Variable.refused (
        setup_error
          (codes "unsupported variable (" ++ (key ++ (codes "=" ++ (value ++ codes ")\n")))))

-- `!entry->value || !*entry->value` comes first.
unfoldable pub read_variable : CString → Option CString → Variable
unfolding needs_value read_value
read_variable key none = needs_value key
read_variable key (some []) = needs_value key
read_variable key (some (c ∷ cs)) = read_value key (c ∷ cs)

unfoldable pub read_variables : List DictEntry → ℤ → Variable
unfolding read_variable
read_variables [] port = Variable.port_is port
read_variables (entry ∷ es) port = elim (read_variable entry.key entry.value) [
  | Variable.refused text ↦ Variable.refused text
  | Variable.port_is port' ↦ read_variables es port'
]

abbrev pub magnitude : ℤ → ℕ
magnitude (pos n) = n
magnitude (negsuc n) = n + 1

module _ {F : Type 0} where
  -- What follows the loop.
  unfoldable pub finish_setup : (ℕ → ℕ) → IpfwImpl F → Config → ℤ → IpfwImpl F
  unfolding snaplen_of
  finish_setup htons impl cfg port = record impl {
    proto = pf_inet;
    port = port;
    snaplen = snaplen_of cfg.snaplen;
    timeout = cfg.timeout;
    passive = cfg.mode == mode_passive;
    sin = record { sin_family = pf_inet; s_addr = 0; sin_port = htons (magnitude port) };
  }

  abbrev pub refuse : ℤ → ℕ → CString → InitReply (IpfwImpl F)
  refuse code max text = record { code = code; handle = none; errbuf = take (max - 1) text }

  -- `ipfw_daq_initialize`, from the allocation of the buffer on.
  unfoldable pub allocate_buffer : (ℕ → Option (List ℕ)) → ℕ → IpfwImpl F → InitReply (IpfwImpl F)
  allocate_buffer malloc max impl = elim (malloc impl.snaplen) [
    | none ↦
        refuse daq_error_nomem max
          (codes "ipfw_daq_initialize: failed to allocate the ipfw buffer!")
    | some buf ↦ record {
      code = daq_success;
      handle = some (record impl { buf = buf; sock = negsuc 0; state = state_initialized });
      errbuf = [];
    }
  ]

  -- `ipfw_daq_initialize`: whether calloc succeeds, and what malloc gives.
  unfoldable pub ipfw_daq_initialize :
      (ℕ → ℕ) → Bool → (ℕ → Option (List ℕ)) → Config → ℕ → InitReply (IpfwImpl F)
  unfolding read_variables finish_setup allocate_buffer
  ipfw_daq_initialize htons false malloc cfg max =
      refuse daq_error_nomem max (codes "ipfw_daq_initialize: failed to allocate the ipfw context!")
  ipfw_daq_initialize htons true malloc cfg max = elim (read_variables cfg.values default_port) [
    | Variable.refused text ↦ refuse daq_error max text
    | Variable.port_is port ↦ allocate_buffer malloc max (finish_setup htons fresh_ipfw cfg port)
  ]
