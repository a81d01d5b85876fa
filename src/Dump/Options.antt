-- ===== src/Dump/Options.antt =====
-- os-daq-modules/daq_dump.c: `dump_daq_initialize` on the values of the configuration.
use libdaq.Prelude.{
  ℕ, pos, eqb_ℤ, eqb_ℤ→eq, CString, codes, str_eq, List, [], ◌∷◌, Option, none, some, Bool, true,
  false, ◌==◌, All, bit_and, ◌++◌, ◌≡◌, inl, inr, refl, Bool-cases,
}
use libdaq.Common.{Config, DictEntry, daq_success, daq_error, type_file_capable}
use libdaq.Module.{Module, InitReply}
use libdaq.Dump.State.{Impl, fresh_output, output_pcap}
use libdaq.Dump.Vars.{
  Vars, refuse_init, output_of, set_output, read_entry, read_entries, load_mode_of,
  daq_dump_get_vars, init_delegate, init_with, dump_daq_initialize, snprintf, ready, kept,
}

abbrev pub HasValue : DictEntry → Type 0
HasValue entry = (v : CString) × (entry.value ≡ some v)

read_entry_total :
    (strdup : CString → Option CString) (len : ℕ) (entry : DictEntry) (vars : Vars)
    → HasValue entry
    → (vars' : Vars) × (read_entry strdup len entry vars ≡ some vars')
unfolding read_entry
read_entry_total strdup len entry vars (v, has) =
    elim (Bool-cases (str_eq entry.key (codes "load-mode"))) [
      | inl e ↦ (record vars { load_mode = entry.value }, rw e refl)
      | inr e ↦ elim (Bool-cases (str_eq entry.key (codes "file"))) [
        | inl e' ↦ (record vars { pcap_filename = strdup v }, rw (e, e', has) refl)
        | inr e' ↦ elim (Bool-cases (str_eq entry.key (codes "text-file"))) [
          | inl e'' ↦ (record vars { text_filename = strdup v }, rw (e, e', e'', has) refl)
          | inr e'' ↦ elim (Bool-cases (str_eq entry.key (codes "output"))) [
            | inl e3 ↦ (set_output len v vars, rw (e, e', e'', e3, has) refl)
            | inr e3 ↦ (vars, rw (e, e', e'', e3) refl)
          ]
        ]
      ]
    ]

read_entries_total :
    (strdup : CString → Option CString) (len : ℕ) (es : List DictEntry) (vars : Vars)
    → All HasValue es
    → (vars' : Vars) × (read_entries strdup len es vars ≡ some vars')
unfolding read_entries
read_entries_total strdup len [] vars has = (vars, refl)
read_entries_total strdup len (entry ∷ es) vars (has, has') =
    let (vars1, e) = read_entry_total strdup len entry vars has in
    let (vars2, e') = read_entries_total strdup len es vars1 has' in (vars2, rw (e, e') refl)

-- What is read when "output" has an unknown value.
abbrev default_vars : ℕ → ℕ → CString → Vars
default_vars mode len v = record {
  pcap_filename = none;
  text_filename = none;
  output_type = output_pcap;
  mode = mode;
  load_mode = none;
  errbuf = snprintf len (codes "invalid output type (" ++ (v ++ codes ")"));
}

get_vars-unknown :
    (strdup : CString → Option CString) (len : ℕ) (cfg : Config) (v : CString)
    → cfg.values ≡ record { key = codes "output"; value = some v } ∷ []
    → output_of v ≡ none
    → daq_dump_get_vars strdup len cfg ≡ some (true, default_vars cfg.mode len v)
unfolding daq_dump_get_vars read_entries read_entry set_output str_eq
get_vars-unknown strdup len cfg v only unknown =
    rw only (rw (load_mode_of, unknown) (rw (set_output, unknown) refl))

module _ {C U D : Type 0} (m : Module C U) (init : Config → InitReply C)
    (has_init : m.initialize ≡ some init)
    (stores : (cfg : Config)
      → (init cfg).code ≡ pos 0
      → (c : C) × ((init cfg).handle ≡ some c)) where
  init_delegate_total :
      (cfg : Config) (vars : Vars)
      → (reply : InitReply (Impl C D)) × (init_delegate m cfg vars ≡ some reply)
  unfolding init_delegate
  init_delegate_total cfg vars =
      let reply = init (record cfg { mode = vars.mode }) in
      elim (Bool-cases (eqb_ℤ reply.code (pos 0))) [
        | inl e ↦
            let (c, stored) =
              stores (record cfg { mode = vars.mode }) (eqb_ℤ→eq reply.code (pos 0) e) in
            (ready vars c (kept vars.errbuf reply.errbuf), rw (has_init, e, stored) refl)
        | inr e ↦ (
          record { code = reply.code; handle = none; errbuf = kept vars.errbuf reply.errbuf },
          rw (has_init, e) refl,
        )
      ]

  init_with_total :
      (strdup : CString → Option CString) (len : ℕ) (cfg : Config)
      → All HasValue cfg.values
      → (reply : InitReply (Impl C D)) × (init_with strdup len m cfg ≡ some reply)
  unfolding init_with daq_dump_get_vars
  init_with_total strdup len cfg has = elim (Bool-cases (bit_and m.type type_file_capable == 0)) [
    | inl e ↦ (refuse_init len (codes "no file capable daq provided"), rw e refl)
    | inr e ↦
        let (vars, e') =
          read_entries_total strdup len cfg.values
            (record {
              pcap_filename = none;
              text_filename = none;
              output_type = output_pcap;
              mode = cfg.mode;
              load_mode = none;
              errbuf = [];
            })
            has in
        elim (Bool-cases (load_mode_of len vars).0) [
          | inl e'' ↦
              let (reply, e3) = init_delegate_total cfg (load_mode_of len vars).1 in
              (reply, rw (e, e', e'', e3) refl)
          | inr e'' ↦ (
            record { code = daq_error; handle = none; errbuf = (load_mode_of len vars).1.errbuf },
            rw (e, e', e'') refl,
          )
        ]
  ]

  -- If no value of the configuration is NULL, the delegate has `initialize` and stores a handle when it
  -- succeeds, `dump_daq_initialize` returns for every allocation failure.
  pub initialize_total :
      (allocated : Bool) (strdup : CString → Option CString) (len : ℕ) (cfg : Config)
      → All HasValue cfg.values
      → (reply : InitReply (Impl C D)) × (dump_daq_initialize allocated strdup len (some m) cfg
          ≡ some reply)
  unfolding dump_daq_initialize
  initialize_total false strdup len cfg has = (_, refl)
  initialize_total true strdup len cfg has = init_with_total strdup len cfg has

  -- An unknown value of "output" does not stop a file capable delegate that succeeds:
  -- `dump_daq_initialize` gives DAQ_SUCCESS with the default output, and a text in the buffer.
  pub initialize_ignores_output :
      (strdup : CString → Option CString) (len : ℕ) (cfg : Config) (v : CString)
      → (bit_and m.type type_file_capable == 0) ≡ false
      → cfg.values ≡ record { key = codes "output"; value = some v } ∷ []
      → output_of v ≡ none
      → (init cfg).code ≡ daq_success
      → (reply : InitReply (Impl C D)) × (impl : Impl C D) × (dump_daq_initialize true strdup len
            (some m)
            cfg
          ≡ some reply)
        × (reply.code ≡ daq_success)
        × (reply.handle ≡ some impl)
        × (impl.out.output_type ≡ output_pcap)
        × (reply.errbuf
            ≡ kept
                (snprintf len (codes "invalid output type (" ++ (v ++ codes ")")))
                (init cfg).errbuf)
  unfolding dump_daq_initialize init_with init_delegate
  initialize_ignores_output strdup len cfg v capable only unknown ok =
      let (c, stored) = stores cfg ok in
      let vars = default_vars cfg.mode len v in
      (
        ready vars c (kept vars.errbuf (init cfg).errbuf),
        record { handle = c; out = fresh_output },
        rw (capable, get_vars-unknown strdup len cfg v only unknown, has_init, ok, stored) refl,
        refl,
        refl,
        refl,
        refl,
      )
