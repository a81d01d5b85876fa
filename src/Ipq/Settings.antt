-- ===== src/Ipq/Settings.antt =====
-- os-daq-modules/daq_ipq.c: what `ipq_daq_get_setup` leaves in an instance.
use libdaq.Prelude.{
  ℕ, CString, codes, str_eq, List, [], ◌∷◌, Option, none, some, Bool, true, false, if◌then◌else◌,
  ◌≡◌, ◌⊎◌, inl, inr, refl, arith, Bool-cases,
}
use libdaq.Common.{Config, DictEntry}
use libdaq.Dump.Vars.{case_eq}
use libdaq.Netfilter.{Event, Resource, pf_inet, pf_inet6, times_taken, times_given}
use libdaq.Netfilter.Ownership.{Owns, Owns-took-text}
use libdaq.Ipq.{IpqImpl, fresh_ipq}
use libdaq.Ipq.Setup.{
  IpqSetting, IpqBuilt, ipq_daq_get_proto, read_ipq_device, read_ipq_proto, read_ipq_setting,
  read_ipq_entry, ipq_apply, ipq_read_entries, ipq_finish_setup, ipq_daq_get_setup,
}
use libdaq.Ipq.Ownership.{ipq_held}

abbrev pub IsProto : ℕ → Type 0
IsProto p = (p ≡ pf_inet) ⊎ (p ≡ pf_inet6)

abbrev IsGood : IpqSetting → Type 0
IsGood (IpqSetting.device_is text) = Unit
IsGood (IpqSetting.proto_is p) = IsProto p
IsGood (IpqSetting.refused text) = Unit

read_ipq_device-IsGood : (o : Option CString) (value : CString) → IsGood (read_ipq_device o value)
unfolding read_ipq_device
read_ipq_device-IsGood none value = tt
read_ipq_device-IsGood (some text) value = tt

read_ipq_proto-IsGood : (value : CString) → IsGood (read_ipq_proto value)
unfolding read_ipq_proto ipq_daq_get_proto
read_ipq_proto-IsGood value = elim (Bool-cases (case_eq value (codes "ip4"))) [
  | inl e ↦ rw e (inl refl)
  | inr e ↦ elim (Bool-cases (case_eq value (codes "ip6"))) [
    | inl h ↦ rw (e, h) (inr refl)
    | inr h ↦ rw (e, h) tt
  ]
]

if-IsGood : (b : Bool) (x y : IpqSetting) → IsGood x → IsGood y → IsGood (if b then x else y)
if-IsGood true x y h k = h
if-IsGood false x y h k = k

read_ipq_entry-IsGood :
    (strdup : CString → Option CString) (key : CString) (value : Option CString)
    → IsGood (read_ipq_entry strdup key value)
unfolding read_ipq_entry read_ipq_setting
read_ipq_entry-IsGood strdup key none = tt
read_ipq_entry-IsGood strdup key (some []) = tt
read_ipq_entry-IsGood strdup key (some (c ∷ cs)) =
    let value = c ∷ cs in
    if-IsGood (str_eq key (codes "proto")) _ _ (read_ipq_proto-IsGood value)
      (if-IsGood (str_eq key (codes "device")) _ _ (read_ipq_device-IsGood (strdup value) value) tt)

-- An instance of which only the settings are there.
pub record IpqPrepared {F : Type 0} (impl : IpqImpl F) (es : List Event) : Type 0 where
  pub owns : Owns (ipq_held impl) es
  pub proto : IsProto impl.proto
  pub buf : impl.buf ≡ none
  pub ipqh : impl.ipqh ≡ false
  pub link : impl.link ≡ false
  pub net : impl.net ≡ false

module _ {F : Type 0} where
  abbrev IsPrepared : IpqBuilt F → Type 0
  IsPrepared built = IpqPrepared built.impl built.events

  apply-IsPrepared :
      (t : IpqSetting) (impl : IpqImpl F) (es : List Event)
      → IsGood t
      → IpqPrepared impl es
      → IsPrepared (ipq_apply t impl es)
  unfolding ipq_apply
  apply-IsPrepared (IpqSetting.device_is text) impl es good p = record {
    owns = Owns-took-text (ipq_held impl) es p.owns;
    proto = p.proto;
    buf = p.buf;
    ipqh = p.ipqh;
    link = p.link;
    net = p.net;
  }
  apply-IsPrepared (IpqSetting.proto_is proto) impl es good p = record {
    owns = p.owns;
    proto = good;
    buf = p.buf;
    ipqh = p.ipqh;
    link = p.link;
    net = p.net;
  }
  apply-IsPrepared (IpqSetting.refused text) impl es good p = p

  continues-IsPrepared :
      (o : Option CString) (built done : IpqBuilt F)
      → IsPrepared built
      → IsPrepared done
      → IsPrepared (elim o [ none ↦ done | some text ↦ built ])
  continues-IsPrepared none built done b d = d
  continues-IsPrepared (some text) built done b d = b

  read_entries-IsPrepared :
      (strdup : CString → Option CString) (entries : List DictEntry) (impl : IpqImpl F)
      (es : List Event)
      → IpqPrepared impl es
      → IsPrepared (ipq_read_entries strdup entries impl es)
  unfolding ipq_read_entries
  read_entries-IsPrepared strdup [] impl es p = p
  read_entries-IsPrepared strdup (entry ∷ rest) impl es p =
      let t = read_ipq_entry strdup entry.key entry.value in
      let built = ipq_apply t impl es in
      let first =
        apply-IsPrepared t impl es (read_ipq_entry-IsGood strdup entry.key entry.value) p in
      continues-IsPrepared built.failure built _ first
        (read_entries-IsPrepared strdup rest built.impl built.events first)

  finish_setup-IsPrepared :
      (cfg : Config) (built : IpqBuilt F)
      → IsPrepared built
      → IsPrepared (record built { impl = ipq_finish_setup cfg built.impl })
  unfolding ipq_finish_setup
  finish_setup-IsPrepared cfg built p = record {
    owns = p.owns;
    proto = p.proto;
    buf = p.buf;
    ipqh = p.ipqh;
    link = p.link;
    net = p.net;
  }

  pub ipq_get_setup-IpqPrepared :
      (strdup : CString → Option CString) (cfg : Config)
      → let built : IpqBuilt F =
          ipq_daq_get_setup strdup cfg fresh_ipq (Event.took Resource.context ∷ []) in
        IpqPrepared built.impl built.events
  unfolding ipq_daq_get_setup times_taken times_given
  ipq_get_setup-IpqPrepared strdup cfg =
      let start : IpqImpl F = record fresh_ipq { proto = pf_inet } in
      let begun : IpqPrepared start (Event.took Resource.context ∷ []) = record {
        owns = λ r other. (ground arith, refl);
        proto = inl refl;
        buf = refl;
        ipqh = refl;
        link = refl;
        net = refl;
      } in
      let built = ipq_read_entries strdup cfg.values start (Event.took Resource.context ∷ []) in
      let p = read_entries-IsPrepared strdup cfg.values start _ begun in
      continues-IsPrepared built.failure built _ p (finish_setup-IsPrepared cfg built p)
