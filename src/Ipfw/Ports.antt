-- ===== src/Ipfw/Ports.antt =====
-- os-daq-modules/daq_ipfw.c: which configurations `ipfw_daq_initialize` takes.
use libdaq.Prelude.{
  ℕ, zero, suc, ◌≤◌, ℤ, pos, negsuc, CString, codes, str_eq, strtol, to_int, List, [], ◌∷◌, Option,
  none, some, Bool, true, false, All, ◌≡◌, ◌⊎◌, inl, inr, refl, arith, Bool-cases, Option-cases,
}
use libdaq.Common.{Config, DictEntry, daq_success, daq_error, daq_error_nomem, state_initialized}
use libdaq.Module.{InitReply}
use libdaq.Ipfw.{IpfwImpl}
use libdaq.Ipfw.Setup.{
  magnitude, default_port, bad_port, snaplen_of, read_port, Variable, needs_value, read_value,
  read_variable, read_variables, finish_setup, allocate_buffer, ipfw_daq_initialize,
}

-- A port of UDP: from 1 to 65535.
abbrev pub IsPort : ℤ → Type 0
IsPort port = (n : ℕ) × (port ≡ pos n) × (1 ≤ n) × (n ≤ 65535)

-- An entry that is taken: a port, written as a number and nothing else.
abbrev pub IsPortValue : CString → Option CString → Type 0
IsPortValue key none = ⊥
IsPortValue key (some value) =
    (str_eq key (codes "port") ≡ true)
    × ((strtol value 0).1 ≡ [])
    × IsPort (to_int (strtol value 0).0)

abbrev pub IsPortEntry : DictEntry → Type 0
IsPortEntry entry = IsPortValue entry.key entry.value

bad_port_lem : (port : ℤ) → bad_port port ≡ false → IsPort port
unfolding bad_port
bad_port_lem (pos n) e = (n, refl, ground (arith, e), ground (arith, e))
bad_port_lem (negsuc n) e = absurd (ground (arith, e))

-- The number that an entry stands for, and that of the last entry.
abbrev pub port_of : DictEntry → ℤ
port_of entry = elim entry.value [ none ↦ pos 0 | some value ↦ to_int (strtol value 0).0 ]

unfoldable pub last_port : List DictEntry → ℤ → ℤ
last_port [] port = port
last_port (entry ∷ es) port = last_port es (port_of entry)

bad_port-IsPort : (port : ℤ) → bad_port port ≡ true → ¬ IsPort port
unfolding bad_port
bad_port-IsPort (pos zero) e (n, same, low, high) = ground (arith, same, low)
bad_port-IsPort (pos (suc m)) e (n, same, low, high) = ground (arith, e, same, high)
bad_port-IsPort (negsuc m) e (n, same, low, high) = ground (arith, same)

read_port_lem :
    (answer : ℤ × CString)
    → ((read_port answer ≡ none) × (answer.1 ≡ [] → ¬ IsPort (to_int answer.0)))
      ⊎ ((read_port answer ≡ some (to_int answer.0)) × (answer.1 ≡ []) × IsPort (to_int answer.0))
unfolding read_port
read_port_lem (n, c ∷ end) = inl (refl, λ e is. ground (arith, e))
read_port_lem (n, []) = elim (Bool-cases (bad_port (to_int n))) [
  | inl bad ↦ rw bad (inl (refl, λ e. bad_port-IsPort (to_int n) bad))
  | inr good ↦ rw good (inr (refl, refl, bad_port_lem (to_int n) good))
]

abbrev IsRefused : Variable → Type 0
IsRefused v = (text : CString) × (v ≡ Variable.refused text)

read_value_lem :
    (key value : CString)
    → (IsRefused (read_value key value) × ¬ IsPortValue key (some value))
      ⊎ ((read_value key value ≡ Variable.port_is (to_int (strtol value 0).0))
          × IsPortValue key (some value))
unfolding read_value
read_value_lem key value = elim (Bool-cases (str_eq key (codes "port"))) [
  | inr other ↦ rw other (inl ((_, refl), λ (named, whole, is). ground (arith, named)))
  | inl named ↦ elim (read_port_lem (strtol value 0)) [
    | inl (bad, not_port) ↦
        rw (named, bad) (inl ((_, refl), λ (named', whole, is). not_port whole is))
    | inr (good, whole, is) ↦ rw (named, good) (inr (refl, (refl, whole, is)))
  ]
]

no_digits : to_int (strtol [] 0).0 ≡ pos 0
unfolding strtol to_int
no_digits = refl

read_variable_lem :
    (key : CString) (value : Option CString)
    → let entry : DictEntry = record { key = key; value = value } in
      (IsRefused (read_variable key value) × ¬ IsPortEntry entry)
      ⊎ ((read_variable key value ≡ Variable.port_is (port_of entry)) × IsPortEntry entry)
unfolding read_variable needs_value
read_variable_lem key none = inl ((_, refl), λ is. is)
read_variable_lem key (some []) =
    inl ((_, refl), λ (named, whole, (n, same, low, high)). ground (arith, no_digits, same, low))
read_variable_lem key (some (c ∷ cs)) = read_value_lem key (c ∷ cs)

read_variables_lem :
    (es : List DictEntry) (port : ℤ)
    → (IsRefused (read_variables es port) × ¬ All IsPortEntry es)
      ⊎ ((read_variables es port ≡ Variable.port_is (last_port es port)) × All IsPortEntry es)
unfolding read_variables last_port
read_variables_lem [] port = inr (refl, tt)
read_variables_lem (entry ∷ es) port = elim (read_variable_lem entry.key entry.value) [
  | inl ((text, bad), not_port) ↦
      inl ((text, rw (read_variables, bad) refl), λ (is, all). not_port is)
  | inr (good, is) ↦ elim (read_variables_lem es (port_of entry)) [
    | inl ((text, bad), not_all) ↦
        inl ((text, rw (read_variables, good) bad), λ (is', all). not_all all)
    | inr (rest, all) ↦ inr (rw (read_variables, good) rest, (is, all))
  ]
]

port_of-IsPort :
    (key : CString) (value : Option CString)
    → IsPortValue key value
    → IsPort (port_of (record { key = key; value = value }))
port_of-IsPort key none is = absurd is
port_of-IsPort key (some value) (named, whole, is) = is

last_port-IsPort :
    (es : List DictEntry) (port : ℤ) → All IsPortEntry es → IsPort port → IsPort (last_port es port)
unfolding last_port
last_port-IsPort [] port all is = is
last_port-IsPort (entry ∷ es) port (is', all) is =
    last_port-IsPort es (port_of entry) all (port_of-IsPort entry.key entry.value is')

-- `ipfw_daq_initialize` fails with DAQ_ERROR and no handle only if a variable of the configuration is
-- not a port, a number from 1 to 65535 in an int with nothing behind it; it fails with
-- DAQ_ERROR_NOMEM and no handle only if calloc or malloc fails. Else it succeeds: every variable
-- is a port, the module's port is the last of them, or 8000 without any, the socket address has
-- this port, and the buffer is what malloc gave for the snap length.
pub ipfw_initialize_lem :
    {F : Type 0} (htons : ℕ → ℕ) (allocated : Bool) (malloc : ℕ → Option (List ℕ)) (cfg : Config)
    (max : ℕ)
    → let r : InitReply (IpfwImpl F) = ipfw_daq_initialize htons allocated malloc cfg max in
      (((r.code ≡ daq_error) × ¬ All IsPortEntry cfg.values × (r.handle ≡ none))
        ⊎ ((r.code ≡ daq_error_nomem)
            × ((allocated ≡ false) ⊎ (malloc (snaplen_of cfg.snaplen) ≡ none))
            × (r.handle ≡ none)))
      ⊎ ((r.code ≡ daq_success)
          × (impl : IpfwImpl F) × (r.handle ≡ some impl)
          × All IsPortEntry cfg.values
          × IsPort impl.port
          × (impl.port ≡ last_port cfg.values default_port)
          × (impl.sin.sin_port ≡ htons (magnitude impl.port))
          × (malloc impl.snaplen ≡ some impl.buf)
          × (impl.state ≡ state_initialized))
unfolding ipfw_daq_initialize allocate_buffer finish_setup
ipfw_initialize_lem htons false malloc cfg max = inl (inr (refl, inl refl, refl))
ipfw_initialize_lem htons true malloc cfg max = elim (read_variables_lem cfg.values default_port) [
  | inl ((text, bad), not_all) ↦ rw (ipfw_daq_initialize, bad) (inl (inl (refl, not_all, refl)))
  | inr (good, all) ↦
      let is =
        last_port-IsPort cfg.values default_port all (8000, refl, omega arith, omega arith) in
      elim (Option-cases (malloc (snaplen_of cfg.snaplen))) [
        | inl bad ↦
            rw (ipfw_daq_initialize, good, allocate_buffer, finish_setup, bad)
              (inl (inr (refl, inr refl, refl)))
        | inr (buf, there) ↦
            rw (ipfw_daq_initialize, good, allocate_buffer, finish_setup, there)
              (inr (refl, _, refl, all, is, refl, refl, there, refl))
      ]
]
