-- ===== src/Registry/Listing.antt =====
-- api/daq_base.c: the list of module descriptions that the library hands out, and its release.
-- `live` counts the heap blocks in use; `none` is an access outside the array.
pub mod Filled
use libdaq.Prelude.{
  ℕ, zero, suc, ◌+◌, ◌-◌, ℤ, pos, negsuc, CString, List, [], ◌∷◌, length, set, replicate, map,
  Option, none, some, Bool, true, false, not, ltb, if◌then◌else◌,
}
use libdaq.Common.{daq_error_inval, daq_error_nomem}
use libdaq.Registry.{Node, Registry}

-- DAQ_Module_Info_t.
pub record ModuleInfo : Type 0 where
  pub name : Option CString
  pub version : ℕ
  pub type : ℕ

-- An element of the array that `calloc` gives.
abbrev pub blank : ModuleInfo
blank = record { name = none; version = 0; type = 0 }

-- Freeing of one name.
abbrev pub free_name : Option CString → ℕ → ℕ
free_name none live = live
free_name (some s) live = live - 1

-- The loop of `daq_free_module_list`, over the first `size` elements.
unfoldable pub free_names : ℕ → List ModuleInfo → ℕ → Option ℕ
free_names zero list live = some live
free_names (suc size) [] live = none
free_names (suc size) (m ∷ ms) live = free_names size ms (free_name m.name live)

-- `daq_free_module_list`: the heap blocks that are left.
unfoldable pub daq_free_module_list : Option (List ModuleInfo) → ℤ → ℕ → Option ℕ
daq_free_module_list none size live = some live
daq_free_module_list (some list) (negsuc n) live = some live
daq_free_module_list (some list) (pos size) live = elim (free_names size list live) [
  | none ↦ none
  | some l ↦ some (l - 1)
]

-- The release on a failed copy of a name: `daq_free_module_list(info, idx)`.
unfoldable pub give_up : List ModuleInfo → ℕ → ℕ → Option (ℤ × Option (List ModuleInfo) × ℕ)
give_up info idx live = elim (daq_free_module_list (some info) (pos idx) live) [
  | none ↦ none
  | some l ↦ some (daq_error_nomem, none, l)
]

module _ {C U : Type 0} where
  abbrev pub describe : Node C U → ModuleInfo
  describe n = record {
    name = some n.module'.name;
    version = n.module'.module_version;
    type = n.module'.type;
  }

  -- The loop over the nodes; `dup_ok i` is whether the copy of the i-th name succeeds.
  unfoldable pub fill :
      (ℕ → Bool)
      → ℕ
      → List (Node C U)
      → ℕ
      → List ModuleInfo
      → ℕ
      → Option (ℤ × Option (List ModuleInfo) × ℕ)
  fill dup_ok num [] idx info live = some (pos num, some info, live)
  fill dup_ok num (n ∷ ns) idx info live =
      let rest = fill dup_ok num ns (suc idx) (set info idx (describe n)) (live + 1) in
      if not (ltb idx (length info))
      then none
      else if not (dup_ok idx)
      then give_up info idx live
      else rest

  -- `daq_get_module_list`: its result, what it stores through `list`, and the heap blocks in use.
  -- The first argument is whether `list` is not NULL.
  unfoldable pub daq_get_module_list :
      Bool → Bool → (ℕ → Bool) → Registry C U → ℕ → Option (ℤ × Option (List ModuleInfo) × ℕ)
  daq_get_module_list has_list calloc_ok dup_ok r live =
      if not has_list
      then some (daq_error_inval, none, live)
      else if not calloc_ok
      then some (daq_error_nomem, none, live)
      else fill dup_ok r.num_modules r.modules 0 (replicate r.num_modules blank) (live + 1)
