-- ===== src/Ipq/Setup.antt =====
-- os-daq-modules/daq_ipq.c: `ipq_daq_get_proto` and `ipq_daq_get_setup`.
use libdaq.Prelude.{
  ℕ, ◌*◌, ◌%◌, ◌^◌, CString, codes, str_eq, List, [], ◌∷◌, ◌++◌, Option, none, some, ◌==◌,
  if◌then◌else◌,
}
use libdaq.Common.{Config, DictEntry, mode_passive}
use libdaq.Dump.Vars.{case_eq}
use libdaq.Ipfw.Setup.{snaplen_of}
use libdaq.Netfilter.{Event, Resource, pf_inet, pf_inet6}
use libdaq.Ipq.{IpqImpl}

-- `ipq_daq_get_proto`, for a string.
unfoldable pub ipq_daq_get_proto : CString → ℕ
ipq_daq_get_proto s =
    if case_eq s (codes "ip4") then pf_inet else if case_eq s (codes "ip6") then pf_inet6 else 0

-- What a variable sets, or the text of an error.
pub data IpqSetting : Type 0 where
  device_is : CString → IpqSetting
  proto_is : ℕ → IpqSetting
  refused : CString → IpqSetting

abbrev setup_error : CString → CString → CString → IpqSetting
setup_error what text end =
    IpqSetting.refused (codes "ipq_daq_get_setup: " ++ (what ++ (codes " (" ++ (text ++ end))))

unfoldable pub read_ipq_device : Option CString → CString → IpqSetting
read_ipq_device none value =
    setup_error (codes "can't allocate memory for device") value (codes ")\n")
read_ipq_device (some text) value = IpqSetting.device_is text

unfoldable pub read_ipq_proto : CString → IpqSetting
unfolding ipq_daq_get_proto
read_ipq_proto value =
    let proto = ipq_daq_get_proto value in
    if proto == 0
    then setup_error (codes "bad proto") value (codes ")\n")
    else IpqSetting.proto_is proto

-- The branches of an entry with a value.
unfoldable pub read_ipq_setting : (CString → Option CString) → CString → CString → IpqSetting
unfolding read_ipq_device read_ipq_proto
read_ipq_setting strdup key value =
    if str_eq key (codes "proto")
    then read_ipq_proto value
    else if str_eq key (codes "device")
    then read_ipq_device (strdup value) value
    else setup_error (codes "unsupported variable") key (codes "=" ++ (value ++ codes ")\n"))

-- `!entry->value || !*entry->value` comes first.
unfoldable pub read_ipq_entry : (CString → Option CString) → CString → Option CString → IpqSetting
unfolding read_ipq_setting
read_ipq_entry strdup key none = setup_error (codes "variable needs value") key (codes ")\n")
read_ipq_entry strdup key (some []) = setup_error (codes "variable needs value") key (codes ")\n")
read_ipq_entry strdup key (some (c ∷ cs)) = read_ipq_setting strdup key (c ∷ cs)

-- The instance, or the text of an error, and what was taken, the latest first.
pub record IpqBuilt (F : Type 0) : Type 0 where
  pub failure : Option CString
  pub impl : IpqImpl F
  pub events : List Event

module _ {F : Type 0} where
  -- What a round of the loop changes.
  unfoldable pub ipq_apply : IpqSetting → IpqImpl F → List Event → IpqBuilt F
  ipq_apply (IpqSetting.device_is text) impl es = record {
    failure = none;
    impl = record impl { device = some text };
    events = Event.took Resource.device_text ∷ es;
  }
  ipq_apply (IpqSetting.proto_is proto) impl es = record {
    failure = none;
    impl = record impl { proto = proto };
    events = es;
  }
  ipq_apply (IpqSetting.refused text) impl es = record {
    failure = some text;
    impl = impl;
    events = es;
  }

  -- The loop.
  unfoldable pub ipq_read_entries :
      (CString → Option CString) → List DictEntry → IpqImpl F → List Event → IpqBuilt F
  unfolding read_ipq_entry ipq_apply
  ipq_read_entries strdup [] impl es = record { failure = none; impl = impl; events = es }
  ipq_read_entries strdup (entry ∷ rest) impl es =
      let built = ipq_apply (read_ipq_entry strdup entry.key entry.value) impl es in
      let done = ipq_read_entries strdup rest built.impl built.events in
      elim built.failure [ none ↦ done | some text ↦ built ]

  -- What follows the loop: the timeout is in microseconds, in an unsigned int.
  unfoldable pub ipq_finish_setup : Config → IpqImpl F → IpqImpl F
  ipq_finish_setup cfg impl = record impl {
    snaplen = snaplen_of cfg.snaplen;
    timeout = cfg.timeout * 1000 % 2 ^ 32;
    passive = cfg.mode == mode_passive;
  }

  -- `ipq_daq_get_setup`.
  unfoldable pub ipq_daq_get_setup :
      (CString → Option CString) → Config → IpqImpl F → List Event → IpqBuilt F
  unfolding ipq_read_entries ipq_finish_setup
  ipq_daq_get_setup strdup cfg impl es =
      let built = ipq_read_entries strdup cfg.values (record impl { proto = pf_inet }) es in
      elim built.failure [
        | none ↦ record built { impl = ipq_finish_setup cfg built.impl }
        | some text ↦ built
      ]
