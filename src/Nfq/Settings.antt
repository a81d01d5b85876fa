-- ===== src/Nfq/Settings.antt =====
-- os-daq-modules/daq_nfq.c: what `nfq_daq_get_setup` leaves in an instance.
use libdaq.Prelude.{
  ℕ, ◌≤◌, ℤ, pos, negsuc, to_int, strtol, CString, codes, str_eq, List, [], ◌∷◌, Option, none, some,
  Bool, true, false, ltb→le, if◌then◌else◌, ◌≡◌, ◌⊎◌, inl, inr, refl, arith, Bool-cases,
}
use libdaq.Common.{Config, DictEntry}
use libdaq.Netfilter.{prefix_case_eq, Event, Resource, times_taken, times_given}
use libdaq.Nfq.{NfqImpl, fresh_nfq}
use libdaq.Nfq.Setup.{
  Setting, Built, bad_number, read_number, read_queue, read_queue_len, read_protos, read_device,
  nfq_daq_get_protos, read_setting, read_entry, nfq_apply, nfq_read_entries, nfq_finish_setup,
  nfq_daq_get_setup,
}
use libdaq.Netfilter.Ownership.{Owns, Owns-took-text}
use libdaq.Nfq.Ownership.{held}

-- A number from 0 to 65535.
abbrev pub IsShort : ℤ → Type 0
IsShort n = (m : ℕ) × (n ≡ pos m) × (m ≤ 65535)

abbrev pub IsProtos : ℕ → Type 0
IsProtos p = (p ≡ 1) ⊎ (p ≡ 2)

abbrev IsGood : Setting → Type 0
IsGood (Setting.device_is text) = Unit
IsGood (Setting.protos_are p) = IsProtos p
IsGood (Setting.queue_is n) = IsShort n
IsGood (Setting.length_is n) = IsShort n
IsGood (Setting.refused text) = Unit

IsShort-bad_number : (n : ℤ) → bad_number n ≡ false → IsShort n
unfolding bad_number
IsShort-bad_number (pos m) e = (m, refl, ltb→le 65535 m e)
IsShort-bad_number (negsuc m) e = absurd (cc)

-- A number that is read is in range.
abbrev Ranged : Option ℤ → Type 0
Ranged none = Unit
Ranged (some n) = IsShort n

read_number-Ranged : (answer : ℤ × CString) → Ranged (read_number answer)
unfolding read_number
read_number-Ranged (n, c ∷ end) = tt
read_number-Ranged (n, []) = elim (Bool-cases (bad_number (to_int n))) [
  | inl bad ↦ rw bad tt
  | inr good ↦ rw good (IsShort-bad_number (to_int n) good)
]

read_queue-IsGood : (o : Option ℤ) (value : CString) → Ranged o → IsGood (read_queue o value)
unfolding read_queue
read_queue-IsGood none value h = tt
read_queue-IsGood (some n) value h = h

read_queue_len-IsGood :
    (o : Option ℤ) (value : CString) → Ranged o → IsGood (read_queue_len o value)
unfolding read_queue_len
read_queue_len-IsGood none value h = tt
read_queue_len-IsGood (some n) value h = h

read_device-IsGood : (o : Option CString) (value : CString) → IsGood (read_device o value)
unfolding read_device
read_device-IsGood none value = tt
read_device-IsGood (some text) value = tt

read_protos-IsGood : (value : CString) → IsGood (read_protos value)
unfolding read_protos nfq_daq_get_protos
read_protos-IsGood value = elim (Bool-cases (prefix_case_eq 3 value (codes "ip4"))) [
  | inl e ↦ rw e (inl refl)
  | inr e ↦ elim (Bool-cases (prefix_case_eq 3 value (codes "ip6"))) [
    | inl h ↦ rw (e, h) (inr refl)
    | inr h ↦ rw (e, h) tt
  ]
]

if-IsGood : (b : Bool) (x y : Setting) → IsGood x → IsGood y → IsGood (if b then x else y)
if-IsGood true x y h k = h
if-IsGood false x y h k = k

read_entry-IsGood :
    (strdup : CString → Option CString) (key : CString) (value : Option CString)
    → IsGood (read_entry strdup key value)
unfolding read_entry read_setting
read_entry-IsGood strdup key none = tt
read_entry-IsGood strdup key (some []) = tt
read_entry-IsGood strdup key (some (c ∷ cs)) =
    let value = c ∷ cs in
    let number = read_number-Ranged (strtol value 0) in
    if-IsGood (str_eq key (codes "device")) _ _ (read_device-IsGood (strdup value) value) (
      if-IsGood (str_eq key (codes "proto")) _ _ (read_protos-IsGood value) (
        if-IsGood (str_eq key (codes "queue")) _ _ (read_queue-IsGood _ value number) (
          if-IsGood (str_eq key (codes "queue_len")) _ _ (read_queue_len-IsGood _ value number)
            tt)))

-- An instance of which only the settings are there.
pub record Prepared {F U : Type 0} (impl : NfqImpl F U) (es : List Event) : Type 0 where
  pub owns : Owns (held impl) es
  pub qid : IsShort impl.qid
  pub qlen : IsShort impl.qlen
  pub protos : IsProtos impl.protos
  pub buf : impl.buf ≡ none
  pub nf_handle : impl.nf_handle ≡ false
  pub nf_queue : impl.nf_queue ≡ false
  pub link : impl.link ≡ false
  pub net : impl.net ≡ false

module _ {F U : Type 0} where
  apply-Prepared :
      (t : Setting) (impl : NfqImpl F U) (es : List Event)
      → IsGood t
      → Prepared impl es
      → let built = nfq_apply t impl es in Prepared built.impl built.events
  unfolding nfq_apply
  apply-Prepared (Setting.device_is text) impl es good p = record {
    owns = Owns-took-text (held impl) es p.owns;
    qid = p.qid;
    qlen = p.qlen;
    protos = p.protos;
    buf = p.buf;
    nf_handle = p.nf_handle;
    nf_queue = p.nf_queue;
    link = p.link;
    net = p.net;
  }
  apply-Prepared (Setting.protos_are protos) impl es good p = record {
    owns = p.owns;
    qid = p.qid;
    qlen = p.qlen;
    protos = good;
    buf = p.buf;
    nf_handle = p.nf_handle;
    nf_queue = p.nf_queue;
    link = p.link;
    net = p.net;
  }
  apply-Prepared (Setting.queue_is n) impl es good p = record {
    owns = p.owns;
    qid = good;
    qlen = p.qlen;
    protos = p.protos;
    buf = p.buf;
    nf_handle = p.nf_handle;
    nf_queue = p.nf_queue;
    link = p.link;
    net = p.net;
  }
  apply-Prepared (Setting.length_is n) impl es good p = record {
    owns = p.owns;
    qid = p.qid;
    qlen = good;
    protos = p.protos;
    buf = p.buf;
    nf_handle = p.nf_handle;
    nf_queue = p.nf_queue;
    link = p.link;
    net = p.net;
  }
  apply-Prepared (Setting.refused text) impl es good p = p

  abbrev IsPrepared : Built F U → Type 0
  IsPrepared built = Prepared built.impl built.events

  goes_on-IsPrepared :
      (o : Option CString) (built done : Built F U)
      → IsPrepared built
      → IsPrepared done
      → IsPrepared (elim o [ none ↦ done | some text ↦ built ])
  goes_on-IsPrepared none built done b d = d
  goes_on-IsPrepared (some text) built done b d = b

  read_entries-IsPrepared :
      (strdup : CString → Option CString) (entries : List DictEntry) (impl : NfqImpl F U)
      (es : List Event)
      → Prepared impl es
      → IsPrepared (nfq_read_entries strdup entries impl es)
  unfolding nfq_read_entries
  read_entries-IsPrepared strdup [] impl es p = p
  read_entries-IsPrepared strdup (entry ∷ rest) impl es p =
      let t = read_entry strdup entry.key entry.value in
      let built = nfq_apply t impl es in
      let first = apply-Prepared t impl es (read_entry-IsGood strdup entry.key entry.value) p in
      goes_on-IsPrepared built.failure built _ first
        (read_entries-IsPrepared strdup rest built.impl built.events first)

  finish_setup-IsPrepared :
      (cfg : Config) (built : Built F U)
      → IsPrepared built
      → IsPrepared (record built { impl = nfq_finish_setup cfg built.impl })
  unfolding nfq_finish_setup
  finish_setup-IsPrepared cfg built p = record {
    owns = p.owns;
    qid = p.qid;
    qlen = p.qlen;
    protos = p.protos;
    buf = p.buf;
    nf_handle = p.nf_handle;
    nf_queue = p.nf_queue;
    link = p.link;
    net = p.net;
  }

  pub get_setup-IsPrepared :
      (strdup : CString → Option CString) (cfg : Config)
      → let built : Built F U =
          nfq_daq_get_setup strdup cfg fresh_nfq (Event.took Resource.context ∷ []) in
        Prepared built.impl built.events
  unfolding nfq_daq_get_setup times_taken times_given
  get_setup-IsPrepared strdup cfg =
      let start : NfqImpl F U = record fresh_nfq { protos = 1; qid = pos 0; qlen = pos 0 } in
      let begun : Prepared start (Event.took Resource.context ∷ []) = record {
        owns = λ r other. (ground arith, refl);
        qid = (0, refl, omega arith);
        qlen = (0, refl, omega arith);
        protos = inl refl;
        buf = refl;
        nf_handle = refl;
        nf_queue = refl;
        link = refl;
        net = refl;
      } in
      let built = nfq_read_entries strdup cfg.values start (Event.took Resource.context ∷ []) in
      let p = read_entries-IsPrepared strdup cfg.values start _ begun in
      goes_on-IsPrepared built.failure built _ p (finish_setup-IsPrepared cfg built p)
