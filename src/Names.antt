-- ===== src/Names.antt =====
-- api/daq_base.c: the name tables of verdicts, modes and states.
pub mod Tables
use libdaq.Prelude.{
  ℕ, ◌<◌, ◌≡◌, ◌↔◌, CString, codes, List, [], ◌∷◌, Option, none, some, leb, get_elem?,
  if◌then◌else◌, ◌>>=◌, arith,
}
use libdaq.Common.{max_daq_verdict, max_daq_mode, max_daq_state}

abbrev pub daq_verdict_strings : List CString
daq_verdict_strings =
    codes "pass"
    ∷ codes "block"
    ∷ codes "replace"
    ∷ codes "whitelist"
    ∷ codes "blacklist"
    ∷ codes "ignore"
    ∷ codes "retry"
    ∷ []

abbrev pub daq_mode_strings : List CString
daq_mode_strings = codes "passive" ∷ codes "inline" ∷ codes "read-file" ∷ []

abbrev pub daq_state_strings : List CString
daq_state_strings =
    codes "uninitialized"
    ∷ codes "initialized"
    ∷ codes "started"
    ∷ codes "stopped"
    ∷ codes "unknown"
    ∷ []

-- `table[i]`: none is a read outside the array.
unfoldable pub name_at : List CString → ℕ → Option (Option CString)
name_at table i = do text ← get_elem? table i; some (some text)

-- What the string functions return: NULL is `some none`, an access outside the array `none`.
unfoldable pub daq_verdict_string : ℕ → Option (Option CString)
daq_verdict_string verdict =
    if leb max_daq_verdict verdict then some none else name_at daq_verdict_strings verdict

unfoldable pub daq_mode_string : ℕ → Option (Option CString)
daq_mode_string mode = if leb max_daq_mode mode then some none else name_at daq_mode_strings mode

unfoldable pub daq_state_string : ℕ → Option (Option CString)
daq_state_string state =
    if leb max_daq_state state then some none else name_at daq_state_strings state
