-- ===== src/Dump/Vars.antt =====
-- os-daq-modules/daq_dump.c: `daq_dump_get_vars` and `dump_daq_initialize`. strdup and strcmp of a
-- NULL value fault; whether memory is there is an argument.
use libdaq.Prelude.{
  ℕ, ◌+◌, ◌-◌, pos, eqb_ℤ, CString, codes, str_eq, List, [], ◌∷◌, ◌++◌, map, take, Option, none,
  some, Bool, true, false, not, leb, ◌&&◌, ◌==◌, if◌then◌else◌, ◌>>=◌, bit_and,
}
use libdaq.Common.{
  Config, DictEntry, daq_success, daq_error, daq_error_nomem, mode_passive, mode_inline,
  mode_read_file, type_file_capable,
}
use libdaq.Module.{Module, InitReply}
use libdaq.Dump.State.{Impl, fresh_output, output_pcap, output_text}

-- `tolower` in the C locale.
abbrev pub lower : ℕ → ℕ
lower c = if leb b'A' c && leb c b'Z' then c + 32 else c

-- `!strcasecmp(s, t)`.
abbrev pub case_eq : CString → CString → Bool
case_eq s t = str_eq (map lower s) (map lower t)

-- What the function writes: three fields of the structure, the mode of its copy of the configuration,
-- its variable `s`, and `errBuf`.
pub record Vars : Type 0 where
  pub pcap_filename : Option CString
  pub text_filename : Option CString
  pub output_type : ℕ
  pub mode : ℕ
  pub load_mode : Option CString
  pub errbuf : CString

-- `snprintf` of a text into a buffer of `len` bytes.
abbrev pub snprintf : ℕ → CString → CString
snprintf len text = take (len - 1) text

-- DUMP_OUTPUT_* under its name.
unfoldable pub output_of : CString → Option ℕ
output_of v =
    if str_eq v (codes "none")
    then some 0
    else if str_eq v (codes "pcap")
    then some output_pcap
    else if str_eq v (codes "text")
    then some output_text
    else if str_eq v (codes "both")
    then some 3
    else none

-- The key "output": another value only leaves a text.
unfoldable pub set_output : ℕ → CString → Vars → Vars
set_output len v vars = elim (output_of v) [
  | none ↦ record vars { errbuf = snprintf len (codes "invalid output type (" ++ (v ++ codes ")")) }
  | some type ↦ record vars { output_type = type }
]

-- One round of the loop.
unfoldable pub read_entry : (CString → Option CString) → ℕ → DictEntry → Vars → Option Vars
unfolding set_output
read_entry strdup len entry vars =
    if str_eq entry.key (codes "load-mode")
    then some (record vars { load_mode = entry.value })
    else if str_eq entry.key (codes "file")
    then (do v ← entry.value; some (record vars { pcap_filename = strdup v }))
    else if str_eq entry.key (codes "text-file")
    then (do v ← entry.value; some (record vars { text_filename = strdup v }))
    else if str_eq entry.key (codes "output")
    then (do v ← entry.value; some (set_output len v vars))
    else some vars

unfoldable pub read_entries : (CString → Option CString) → ℕ → List DictEntry → Vars → Option Vars
unfolding read_entry
read_entries strdup len [] vars = some vars
read_entries strdup len (entry ∷ es) vars = do
  vars' ← read_entry strdup len entry vars
  read_entries strdup len es vars'

-- DAQ_MODE_* under its name.
unfoldable pub mode_of : CString → Option ℕ
mode_of s =
    if case_eq s (codes "read-file")
    then some mode_read_file
    else if case_eq s (codes "passive")
    then some mode_passive
    else if case_eq s (codes "inline")
    then some mode_inline
    else none

-- What follows the loop: whether the function returns 1, and what it wrote.
unfoldable pub load_mode_of : ℕ → Vars → Bool × Vars
load_mode_of len vars = elim vars.load_mode [
  | none ↦ (true, vars)
  | some s ↦ elim (mode_of s) [
    | none ↦ (
      false,
      record vars { errbuf = snprintf len (codes "invalid load-mode (" ++ (s ++ codes ")")) },
    )
    | some mode ↦ (true, record vars { mode = mode })
  ]
]

-- `daq_dump_get_vars`.
unfoldable pub daq_dump_get_vars : (CString → Option CString) → ℕ → Config → Option (Bool × Vars)
unfolding read_entries load_mode_of
daq_dump_get_vars strdup len cfg = do
  vars ← read_entries strdup len cfg.values (record {
    pcap_filename = none;
    text_filename = none;
    output_type = output_pcap;
    mode = cfg.mode;
    load_mode = none;
    errbuf = [];
  })
  some (load_mode_of len vars)

-- A reply without a handle.
abbrev pub refuse_init : {C D : Type 0} → ℕ → CString → InitReply (Impl C D)
refuse_init len text = record {
  code = daq_error;
  handle = none;
  errbuf = snprintf len (codes "dump_daq_initialize: " ++ text);
}

-- A delegate that leaves no text has not written to `errBuf`.
abbrev pub kept : CString → CString → CString
kept old [] = old
kept old (c ∷ text) = c ∷ text

-- The structure that is handed out.
abbrev pub ready : {C D : Type 0} → Vars → C → CString → InitReply (Impl C D)
ready vars c text = record {
  code = daq_success;
  handle = some (record {
    handle = c;
    out = record fresh_output {
      pcap_filename = vars.pcap_filename;
      text_filename = vars.text_filename;
      output_type = vars.output_type;
    };
  });
  errbuf = text;
}

module _ {C U D : Type 0} where
  -- `mod->initialize(&sub_cfg, ...)` and what follows. A delegate that succeeds has stored a handle.
  unfoldable pub init_delegate : Module C U → Config → Vars → Option (InitReply (Impl C D))
  init_delegate m cfg vars = do
    init ← m.initialize
    (let reply = init (record cfg { mode = vars.mode }) in
        if not (eqb_ℤ reply.code (pos 0))
        then some
            (record { code = reply.code; handle = none; errbuf = kept vars.errbuf reply.errbuf })
        else (do c ← reply.handle; some (ready vars c (kept vars.errbuf reply.errbuf))))

  -- `dump_daq_initialize` with a delegate, once memory is there.
  unfoldable pub init_with :
      (CString → Option CString) → ℕ → Module C U → Config → Option (InitReply (Impl C D))
  unfolding daq_dump_get_vars init_delegate
  init_with strdup len m cfg =
      if bit_and m.type type_file_capable == 0
      then some (refuse_init len (codes "no file capable daq provided"))
      else (do
        res ← daq_dump_get_vars strdup len cfg
        if res.0
            then init_delegate m cfg res.1
            else some (record { code = daq_error; handle = none; errbuf = res.1.errbuf }))

  -- `dump_daq_initialize`; `extra` is the delegate.
  unfoldable pub dump_daq_initialize :
      Bool
      → (CString → Option CString)
      → ℕ
      → Option (Module C U)
      → Config
      → Option (InitReply (Impl C D))
  unfolding init_with
  dump_daq_initialize false strdup len extra cfg = some (record {
    code = daq_error_nomem;
    handle = none;
    errbuf =
        snprintf len (codes "dump_daq_initialize: Couldn't allocate memory for the DAQ context");
  })
  dump_daq_initialize true strdup len none cfg =
      some (refuse_init len (codes "no file capable daq provided"))
  dump_daq_initialize true strdup len (some m) cfg = init_with strdup len m cfg

  -- `dump_daq_shutdown`.
  unfoldable pub dump_daq_shutdown : Module C U → Impl C D → Option (Unit {0})
  dump_daq_shutdown m impl = do f ← m.shutdown; some (f impl.handle)
