-- ===== src/Afpacket/Options.antt =====
-- os-daq-modules/daq_afpacket.c: the variables that `afpacket_daq_initialize` reads (with fanout), and the
-- rest of it.
use libdaq.Prelude.{
  ℕ, ◌+◌, ◌*◌, ◌/◌, ◌%◌, ◌^◌, ℤ, pos, negsuc, CString, codes, str_eq, strtoul, to_int, List, [],
  ◌∷◌, ◌++◌, Option, none, some, Bool, true, false, ◌==◌, ◌&&◌, ◌||◌, not, if◌then◌else◌, length,
  bit_or,
}
use libdaq.Common.{
  Config, DictEntry, no_stats, daq_error, daq_error_nomem, mode_passive, state_uninitialized,
  state_initialized,
}
use libdaq.Afpacket.Peers.{Instance, Context}
use libdaq.Afpacket.Devices.{Creation, Opening, Opened, init_error, open_devices, bad_device}

-- AFPacketFanoutCfg, and what else the variables set.
pub record Settings : Type 0 where
  pub size_str : Option CString
  pub debug : Bool
  pub fanout_type : ℕ
  pub fanout_flags : ℕ
  pub enabled : Bool

abbrev pub no_settings : Settings
no_settings = record {
  size_str = none;
  debug = false;
  fanout_type = 0;
  fanout_flags = 0;
  enabled = false;
}

-- PACKET_FANOUT_HASH, _LB, _CPU, _ROLLOVER, _RND and _QM of <linux/if_packet.h>.
unfoldable pub fanout_type_of : CString → Option ℕ
fanout_type_of value =
    if str_eq value (codes "hash")
    then some 0
    else if str_eq value (codes "lb")
    then some 1
    else if str_eq value (codes "cpu")
    then some 2
    else if str_eq value (codes "rollover")
    then some 3
    else if str_eq value (codes "rnd")
    then some 4
    else if str_eq value (codes "qm")
    then some 5
    else none

-- PACKET_FANOUT_FLAG_ROLLOVER and PACKET_FANOUT_FLAG_DEFRAG.
unfoldable pub fanout_flag_of : CString → Option ℕ
fanout_flag_of value =
    if str_eq value (codes "rollover")
    then some 0x1000
    else if str_eq value (codes "defrag")
    then some 0x8000
    else none

-- A round of the loop over the variables: the settings, or an error text.
pub data Setting : Type 0 where
  taken : Settings → Setting
  rejected : CString → Setting

abbrev pub needs_argument : CString → Setting
needs_argument key = Setting.rejected (init_error (key ++ codes " requires an argument!"))

abbrev pub unrecognized : CString → CString → Setting
unrecognized key value = Setting.rejected (
    init_error
      (codes "Unrecognized argument for " ++ (key ++ (codes ": '" ++ (value ++ codes "'!")))))

unfoldable pub read_fanout_type : Settings → CString → Option CString → Setting
unfolding fanout_type_of
read_fanout_type o key none = needs_argument key
read_fanout_type o key (some value) = elim (fanout_type_of value) [
  | none ↦ unrecognized key value
  | some t ↦ Setting.taken (record o { fanout_type = t; enabled = true })
]

unfoldable pub read_fanout_flag : Settings → CString → Option CString → Setting
unfolding fanout_flag_of
read_fanout_flag o key none = needs_argument key
read_fanout_flag o key (some value) = elim (fanout_flag_of value) [
  | none ↦ unrecognized key value
  | some flag ↦ Setting.taken (record o { fanout_flags = bit_or o.fanout_flags flag })
]

unfoldable pub read_setting : Settings → CString → Option CString → Setting
unfolding read_fanout_type read_fanout_flag
read_setting o key value =
    if str_eq key (codes "buffer_size_mb")
    then Setting.taken (record o { size_str = value })
    else if str_eq key (codes "debug")
    then Setting.taken (record o { debug = true })
    else if str_eq key (codes "fanout_type")
    then read_fanout_type o key value
    else if str_eq key (codes "fanout_flag")
    then read_fanout_flag o key value
    else Setting.taken o

unfoldable pub read_settings : List DictEntry → Settings → Setting
unfolding read_setting
read_settings [] o = Setting.taken o
read_settings (entry ∷ es) o = elim (read_setting o entry.key entry.value) [
  | Setting.rejected text ↦ Setting.rejected text
  | Setting.taken o' ↦ read_settings es o'
]

-- AF_PACKET_DEFAULT_BUFFER_SIZE.
abbrev pub af_packet_default_buffer_size : ℕ
af_packet_default_buffer_size = 128

abbrev pub megabytes_of : Option CString → ℕ
megabytes_of none = af_packet_default_buffer_size
megabytes_of (some s) =
    if str_eq (codes "max") s then af_packet_default_buffer_size else strtoul s 10 % 2 ^ 32

-- The size in bytes on 32 bits; the environment's string stands in for one that is not set.
unfoldable pub buffer_bytes : Option CString → Option CString → ℕ
unfolding strtoul
buffer_bytes size_str env =
    let size = megabytes_of (elim size_str [ none ↦ env | some s ↦ some s ]) in
    size * 1024 % 2 ^ 32 * 1024 % 2 ^ 32

-- The number of rings.
unfoldable pub num_rings : List Instance → ℕ
num_rings [] = 0
num_rings (x ∷ is) = (elim x.peer [ none ↦ 1 | some j ↦ 2 ]) + num_rings is

-- What a successful `afpacket_daq_initialize` leaves in its context.
pub record Ready : Type 0 where
  pub device : CString
  pub afpc : Context
  pub intf_count : ℕ
  pub timeout : ℤ
  pub size : ℕ
  pub settings : Settings

-- The code and the context, or the text for `errbuf`; `init_faulted` is an access through NULL, or a loop
-- that still runs.
pub data Initialized : Type 0 where
  initialized : Ready → Initialized
  init_failed : ℤ → CString → Initialized
  init_faulted : Initialized

abbrev pub fresh_context : ℤ → Context
fresh_context snaplen = record {
  snaplen = snaplen;
  filter = none;
  fcode = none;
  instances = [];
  break_loop = false;
  stats = no_stats;
  state = state_uninitialized;
  errbuf = [];
}

abbrev pub invalid_text : CString → CString
invalid_text device =
    init_error (codes "Invalid interface specification: '" ++ (device ++ codes "'!"))

-- `(config->timeout > 0) ? (int) config->timeout : -1`.
abbrev pub timeout_of : ℕ → ℤ
timeout_of timeout = if timeout == 0 then negsuc 0 else to_int (pos timeout)

-- From the buffer size on.
unfoldable pub set_size : Option CString → ℤ → CString → Opening → Settings → Initialized
unfolding buffer_bytes num_rings
set_size env timeout device o settings = Initialized.initialized (record {
  device = device;
  afpc = record o.afpc { state = state_initialized };
  intf_count = o.intf_count;
  timeout = timeout;
  size = buffer_bytes settings.size_str env / num_rings o.afpc.instances;
  settings = settings;
})

-- From the check for interfaces that are left over on.
unfoldable pub finish_init : Option CString → Config → CString → Opening → Initialized
unfolding read_settings set_size
finish_init env config device o =
    if length o.afpc.instances == 0 || (not (config.mode == mode_passive) && not (o.num_intfs == 0))
    then Initialized.init_failed daq_error (invalid_text device)
    else elim (read_settings config.values no_settings) [
      | Setting.rejected text ↦ Initialized.init_failed daq_error text
      | Setting.taken settings ↦ set_size env (timeout_of config.timeout) device o settings
    ]

-- From the check of the device string on.
unfoldable pub open_all : (CString → Creation) → Option CString → Config → CString → Initialized
unfolding open_devices finish_init bad_device
open_all kernel env config device =
    let passive = config.mode == mode_passive in
    if bad_device passive device
    then Initialized.init_failed daq_error (invalid_text device)
    else elim (open_devices passive kernel (length device) device
        (record { afpc = fresh_context config.snaplen; intf_count = 0; num_intfs = 0 })) [
          | none ↦ Initialized.init_faulted
          | some r ↦ elim r [
            | Opened.faulted ↦ Initialized.init_faulted
            | Opened.refused text ↦ Initialized.init_failed daq_error text
            | Opened.opened o ↦ finish_init env config device o
          ]
        ]

-- `afpacket_daq_initialize`: whether calloc succeeds, what strdup gives, what the kernel answers for a
-- device, and the environment's AF_PACKET_BUFFER_SIZE.
unfoldable pub afpacket_daq_initialize :
    Bool → (CString → Option CString) → (CString → Creation) → Option CString → Config → Initialized
unfolding open_all
afpacket_daq_initialize false strdup kernel env config =
    Initialized.init_failed daq_error_nomem
      (init_error (codes "Couldn't allocate memory for the new AFPacket context!"))
afpacket_daq_initialize true strdup kernel env config = elim (strdup config.name) [
  | none ↦
      Initialized.init_failed daq_error_nomem
        (init_error (codes "Couldn't allocate memory for the device string!"))
  | some device ↦ open_all kernel env config device
]
