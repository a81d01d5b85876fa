-- ===== src/Names/Tables.antt =====
-- Each name table is total on its enum, empty beyond it, and names no two values alike.
use libdaq.Prelude.{
  ℕ, zero, suc, ◌<◌, ◌≤◌, CString, str_eq, List, [], ◌∷◌, Option, none, some, Bool, true, false,
  ◌&&◌, ◌==◌, if◌then◌else◌, ◌≡◌, refl, arith, Bool-cases, ==_iff, inl, inr,
}
use libdaq.Common.{max_daq_verdict, max_daq_mode, max_daq_state}
use libdaq.Names.{
  daq_verdict_string, daq_mode_string, daq_state_string, daq_verdict_strings, daq_mode_strings,
  daq_state_strings, name_at,
}

-- The first place of a name in a table.
pub position : List CString → CString → ℕ → Option ℕ
position [] s i = none
position (t ∷ ts) s i = if str_eq t s then some i else position ts s (suc i)

-- The function names each value below the bound by a string that stands for it alone, and no other.
abbrev pub Names : (ℕ → Option (Option CString)) → List CString → ℕ → Type 0
Names f table max =
    ((v : ℕ) → v < max → (s : CString) × (f v ≡ some (some s)) × (position table s 0 ≡ some v))
    × ((v : ℕ) → max ≤ v → f v ≡ some none)

-- A table check by evaluation.
checks : (ℕ → Option (Option CString)) → List CString → ℕ → Bool
checks f table zero = true
checks f table (suc n) =
    (elim (f n) [
      | none ↦ false
      | some none ↦ false
      | some (some s) ↦ elim (position table s 0) [ none ↦ false | some i ↦ i == n ]
    ])
    && checks f table n

checks_sound :
    (f : ℕ → Option (Option CString)) (table : List CString) (n v : ℕ)
    → checks f table n ≡ true
    → v < n
    → (s : CString) × (f v ≡ some (some s)) × (position table s 0 ≡ some v)
unfolding checks
checks_sound f table zero v h lt = absurd (omega arith)
checks_sound f table (suc n) v h lt = elim (Bool-cases (v == n)) [
  | inl e ↦ rw ((==_iff v n).0 e) (last (f n) refl)
  | inr e ↦ checks_sound f table n v (ground arith) (ground arith)
]
  where
    last :
        (o : Option (Option CString))
        → f n ≡ o
        → (s : CString) × (f n ≡ some (some s)) × (position table s 0 ≡ some n)
    last none e = absurd (ground arith)
    last (some none) e = absurd (ground arith)
    last (some (some s)) e = (s, e, ground arith)

-- For no number do `daq_verdict_string`, `daq_mode_string` and `daq_state_string` read outside their
-- tables: they return a name for each value of their enum, different names for different values, and
-- NULL for any other number.
pub string_functions_lem :
    Names daq_verdict_string daq_verdict_strings max_daq_verdict
    × Names daq_mode_string daq_mode_strings max_daq_mode
    × Names daq_state_string daq_state_strings max_daq_state
unfolding checks position str_eq name_at daq_verdict_string daq_mode_string daq_state_string
string_functions_lem = (
  (
    λ v h. checks_sound daq_verdict_string daq_verdict_strings max_daq_verdict v refl h,
    λ v h. ground arith,
  ),
  (λ v h. checks_sound daq_mode_string daq_mode_strings max_daq_mode v refl h, λ v h. ground arith),
  (
    λ v h. checks_sound daq_state_string daq_state_strings max_daq_state v refl h,
    λ v h. ground arith,
  ),
)
