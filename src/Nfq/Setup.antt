-- ===== src/Nfq/Setup.antt =====
-- os-daq-modules/daq_nfq.c: `nfq_daq_get_protos` and `nfq_daq_get_setup`.
use libdaq.Prelude.{
  ℕ, ◌/◌, ℤ, pos, negsuc, CString, codes, str_eq, strtol, to_int, List, [], ◌∷◌, ◌++◌, Option, none,
  some, Bool, true, ◌==◌, ltb, if◌then◌else◌,
}
use libdaq.Common.{Config, DictEntry, mode_passive}
use libdaq.Ipfw.Setup.{snaplen_of}
use libdaq.Netfilter.{Event, Resource, prefix_case_eq}
use libdaq.Nfq.{NfqImpl}

-- `nfq_daq_get_protos`, for a string.
unfoldable pub nfq_daq_get_protos : CString → ℕ
unfolding prefix_case_eq
nfq_daq_get_protos s =
    if prefix_case_eq 3 s (codes "ip4")
    then 1
    else if prefix_case_eq 3 s (codes "ip6")
    then 2
    else 0

-- `n < 0 || n > 65535`.
unfoldable pub bad_number : ℤ → Bool
bad_number (negsuc n) = true
bad_number (pos n) = ltb 65535 n

-- What strtol makes of a text: it is refused unless it ends there and the int is in range.
unfoldable pub read_number : ℤ × CString → Option ℤ
unfolding bad_number
read_number (n, []) = if bad_number (to_int n) then none else some (to_int n)
read_number (n, c ∷ end) = none

-- What a variable sets, or the text of an error.
pub data Setting : Type 0 where
  device_is : CString → Setting
  protos_are : ℕ → Setting
  queue_is : ℤ → Setting
  length_is : ℤ → Setting
  refused : CString → Setting

abbrev setup_error : CString → CString → CString → Setting
setup_error what text end =
    Setting.refused (codes "nfq_daq_get_setup: " ++ (what ++ (codes " (" ++ (text ++ end))))

unfoldable pub read_device : Option CString → CString → Setting
read_device none value = setup_error (codes "can't allocate memory for device") value (codes ")\n")
read_device (some text) value = Setting.device_is text

unfoldable pub read_protos : CString → Setting
unfolding nfq_daq_get_protos
read_protos value =
    let protos = nfq_daq_get_protos value in
    if protos == 0
    then setup_error (codes "bad proto") value (codes ")\n")
    else Setting.protos_are protos

unfoldable pub read_queue : Option ℤ → CString → Setting
read_queue none value = setup_error (codes "bad queue") value (codes ")\n")
read_queue (some n) value = Setting.queue_is n

unfoldable pub read_queue_len : Option ℤ → CString → Setting
read_queue_len none value = setup_error (codes "bad queue length") value (codes ")\n")
read_queue_len (some n) value = Setting.length_is n

-- The branches of an entry with a value.
unfoldable pub read_setting : (CString → Option CString) → CString → CString → Setting
unfolding read_device read_protos read_queue read_queue_len read_number strtol
read_setting strdup key value =
    if str_eq key (codes "device")
    then read_device (strdup value) value
    else if str_eq key (codes "proto")
    then read_protos value
    else if str_eq key (codes "queue")
    then read_queue (read_number (strtol value 0)) value
    else if str_eq key (codes "queue_len")
    then read_queue_len (read_number (strtol value 0)) value
    else setup_error (codes "unsupported variable") key (codes "=" ++ (value ++ codes ")\n"))

-- `!entry->value || !*entry->value` comes first.
unfoldable pub read_entry : (CString → Option CString) → CString → Option CString → Setting
unfolding read_setting
read_entry strdup key none = setup_error (codes "variable needs value") key (codes ")\n")
read_entry strdup key (some []) = setup_error (codes "variable needs value") key (codes ")\n")
read_entry strdup key (some (c ∷ cs)) = read_setting strdup key (c ∷ cs)

-- The instance, or the text of an error, and what was taken, the latest first.
pub record Built (F U : Type 0) : Type 0 where
  pub failure : Option CString
  pub impl : NfqImpl F U
  pub events : List Event

module _ {F U : Type 0} where
  -- What a round of the loop changes.
  unfoldable pub nfq_apply : Setting → NfqImpl F U → List Event → Built F U
  nfq_apply (Setting.device_is text) impl es = record {
    failure = none;
    impl = record impl { device = some text };
    events = Event.took Resource.device_text ∷ es;
  }
  nfq_apply (Setting.protos_are protos) impl es = record {
    failure = none;
    impl = record impl { protos = protos };
    events = es;
  }
  nfq_apply (Setting.queue_is n) impl es = record {
    failure = none;
    impl = record impl { qid = n };
    events = es;
  }
  nfq_apply (Setting.length_is n) impl es = record {
    failure = none;
    impl = record impl { qlen = n };
    events = es;
  }
  nfq_apply (Setting.refused text) impl es = record {
    failure = some text;
    impl = impl;
    events = es;
  }

  -- The loop.
  unfoldable pub nfq_read_entries :
      (CString → Option CString) → List DictEntry → NfqImpl F U → List Event → Built F U
  unfolding read_entry nfq_apply
  nfq_read_entries strdup [] impl es = record { failure = none; impl = impl; events = es }
  nfq_read_entries strdup (entry ∷ rest) impl es =
      let built = nfq_apply (read_entry strdup entry.key entry.value) impl es in
      let done = nfq_read_entries strdup rest built.impl built.events in
      elim built.failure [ none ↦ done | some text ↦ built ]

  -- What follows the loop: the timeout is in seconds.
  unfoldable pub nfq_finish_setup : Config → NfqImpl F U → NfqImpl F U
  nfq_finish_setup cfg impl = record impl {
    snaplen = snaplen_of cfg.snaplen;
    timeout = cfg.timeout / 1000;
    passive = cfg.mode == mode_passive;
  }

  -- `nfq_daq_get_setup`.
  unfoldable pub nfq_daq_get_setup :
      (CString → Option CString) → Config → NfqImpl F U → List Event → Built F U
  unfolding nfq_read_entries nfq_finish_setup
  nfq_daq_get_setup strdup cfg impl es =
      let built =
        nfq_read_entries strdup cfg.values (record impl { protos = 1; qid = pos 0; qlen = pos 0 })
          es in
      elim built.failure [
        | none ↦ record built { impl = nfq_finish_setup cfg built.impl }
        | some text ↦ built
      ]
