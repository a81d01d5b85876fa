-- ===== src/Config/Tests.antt =====
-- A configuration that is filled and emptied, and the refinement on that run.
use libdaq.Prelude.{codes, str_eq, List, [], ◌∷◌, none, some, true, false, ◌≡◌, refl, pos, CString}
use libdaq.Common.{Config}
use libdaq.Config.{
  Allocs, find_entry, daq_config_get_value, daq_config_set_value, daq_config_clear_value,
  daq_config_clear_values, set_values, unlink_entry, free_entries, write_entry,
}
use libdaq.Config.Keys.{slot, IsUnique}
use libdaq.Config.Update.{Op, run, step, apply_all, shown, run-refines}

program : Unit {0}
unfolding str_eq find_entry write_entry unlink_entry free_entries set_values daq_config_get_value
    daq_config_set_value daq_config_clear_value daq_config_clear_values run step slot
program = tt

abbrev all_ok : Allocs
all_ok = record { entry_ok = true; key_ok = true; value_ok = true }

abbrev no_memory : Allocs
no_memory = record { entry_ok = true; key_ok = true; value_ok = false }

abbrev fresh : Config
fresh = record {
  name = codes "eth0";
  snaplen = pos 1518;
  timeout = 0;
  mode = 0;
  flags = 0;
  values = [];
}

abbrev ops : List Op
ops =
    Op.set all_ok (codes "debug") none
    ∷ Op.set all_ok (codes "file") (some (codes "a"))
    ∷ Op.set no_memory (codes "file") (some (codes "b"))
    ∷ Op.set all_ok (codes "size") (some (codes "1"))
    ∷ Op.clear (codes "size")
    ∷ []

-- The failed update left the old value, and the cleared key is gone.
run_values :
    run ops (some fresh)
    ≡ some (record fresh {
      values =
          record { key = codes "file"; value = some (codes "a") }
          ∷ record { key = codes "debug"; value = none }
          ∷ [];
    })
unfolding program
run_values = refl

run-refines_example :
    (c' : Config) × (run ops (some fresh) ≡ some c')
    × IsUnique c'.values
    × ((q : CString)
        → daq_config_get_value (some c') (some q) ≡ shown (apply_all ops (slot fresh.values) q))
run-refines_example = run-refines ops fresh tt
