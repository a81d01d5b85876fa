-- ===== src/Registry/Tests.antt =====
-- A search path with one directory, an older module that is registered before, and the theorems there.
use libdaq.Prelude.{
  ℕ, pos, CString, codes, str_eq, strrchr, map, [], ◌∷◌, none, some, Bool, true, false, ◌&&◌,
  if◌then◌else◌, ◌==◌, ◌≡◌, ◌↔◌, inl, inr, refl, arith,
}
use libdaq.Common.{daq_success, daq_error_nomem, daq_error_exists}
use libdaq.Samples.{sample, older_sample, no_datalink}
use libdaq.Registry.{
  Registry, Image, Directory, find_node, daq_find_module, replace_node, misses_pointers,
  register_module, daq_load_module, load_entries, load_directories, load_static_modules,
  daq_load_modules, daq_unload_modules,
}
use libdaq.Registry.Register.{
  count, hits, owned, accepts, IsValid, register_module_lem, register-IsValid,
}
use libdaq.Registry.Load.{IsSound, AtLeast}
use libdaq.Registry.Walk.{load_modules-Extends, unload_modules_lem}
use libdaq.Registry.Search.{Offers, load_modules-AtLeast}
use libdaq.Registry.Listing.{describe, daq_get_module_list, daq_free_module_list}
use libdaq.Registry.Listing.Filled.{all_copied, get_module_list_lem, free_module_list_lem}

program : Unit {0}
unfolding find_node daq_find_module replace_node misses_pointers register_module daq_load_module
    load_entries load_directories load_static_modules daq_load_modules daq_unload_modules strrchr
    str_eq accepts count hits owned
program = tt

-- The older sample is registered, from handle 7.
abbrev loaded : Registry ℕ ℕ
loaded = record {
  modules = record { module' = older_sample; dl_handle = some 7 } ∷ [];
  num_modules = 1;
  opened = 7 ∷ [];
  closed = [];
}

-- Every file loads as the newer sample, from handle 8.
abbrev files : CString → Image ℕ ℕ
files p = record {
  stat_ok = true;
  is_reg = true;
  handle = some 8;
  symbol = some sample;
  calloc_ok = true;
}

abbrev directory : Directory
directory = record { path = codes "/lib"; entries = some (codes "README" ∷ codes "s.so" ∷ []) }

abbrev updated : Registry ℕ ℕ
updated = record {
  modules = record { module' = sample; dl_handle = some 8 } ∷ [];
  num_modules = 1;
  opened = 8 ∷ 7 ∷ [];
  closed = 7 ∷ [];
}

-- The newer module takes the node over, and the old handle is closed.
load_updates : daq_load_modules files [] (directory ∷ []) loaded ≡ (daq_success, updated)
unfolding program
load_updates = refl

register_again : register_module true older_sample (some 9) updated ≡ (daq_error_exists, updated)
unfolding program
register_again = refl

no_memory : register_module false no_datalink none updated ≡ (daq_error_nomem, updated)
unfolding program
no_memory = refl

loaded-IsSound : IsSound loaded
unfolding program
loaded-IsSound = record {
  valid = record {
    unique = (refl, tt);
    counted = refl;
    usable = (record { same_api = refl; complete = refl }, tt);
  };
  balanced = λ q. ground arith;
}

register_module_lem_example :
    let (code, r') = register_module true sample (some 8) loaded in
    ((code ≡ daq_success) ↔ (accepts true sample loaded ≡ true))
    × ((name : CString)
        → daq_find_module r' name ≡ (
            if accepts true sample loaded && str_eq sample.name name
            then some sample
            else daq_find_module loaded name))
    × (accepts true sample loaded ≡ false → r' ≡ loaded)
register_module_lem_example = register_module_lem true sample (some 8) loaded

register-IsValid_example : IsValid (register_module true sample (some 8) loaded).1
register-IsValid_example = register-IsValid true sample (some 8) loaded loaded-IsSound.valid

load_modules-Extends_example :
    ((daq_load_modules files [] (directory ∷ []) loaded).0 ≡ daq_success)
    × (IsSound loaded → IsSound (daq_load_modules files [] (directory ∷ []) loaded).1)
    × ((name : CString) (v : ℕ)
        → AtLeast loaded name v
        → AtLeast (daq_load_modules files [] (directory ∷ []) loaded).1 name v)
load_modules-Extends_example = load_modules-Extends files [] (directory ∷ []) loaded

directory-Offers : Offers files directory sample
unfolding program
directory-Offers = record {
  named = refl;
  names = codes "README" ∷ codes "s.so" ∷ [];
  entries = refl;
  name = codes "s.so";
  listed = inr (inl refl);
  suffix = refl;
  loads = record {
    stat_ok = refl;
    is_reg = refl;
    handle = 8;
    opens = refl;
    symbol = refl;
    calloc_ok = refl;
    same_api = refl;
    complete = refl;
  };
}

load_modules-AtLeast_example :
    AtLeast (daq_load_modules files [] (directory ∷ []) loaded).1 (codes "sample") 3
load_modules-AtLeast_example =
    load_modules-AtLeast files sample [] (directory ∷ []) directory loaded (inl refl)
      directory-Offers

unload_modules_lem_example :
    ((daq_unload_modules loaded).modules ≡ [])
    × ((daq_unload_modules loaded).num_modules ≡ 0)
    × ((q : ℕ)
        → count q (daq_unload_modules loaded).opened ≡ count q (daq_unload_modules loaded).closed)
unload_modules_lem_example = unload_modules_lem loaded loaded-IsSound

abbrev fails_at : ℕ → ℕ → Bool
fails_at n i = if i == n then false else true

get_module_list_lem_example : daq_get_module_list true true (fails_at 1) loaded 5 ≡ (
    if true && all_copied (fails_at 1) 0 1
    then some (pos 1, some (map describe loaded.modules), 7)
    else some (daq_error_nomem, none, 5))
get_module_list_lem_example = get_module_list_lem true (fails_at 1) loaded 5 loaded-IsSound.valid

free_module_list_lem_example :
    daq_free_module_list (some (map describe loaded.modules)) (pos 1) 7 ≡ some 5
free_module_list_lem_example = free_module_list_lem loaded 5 loaded-IsSound.valid
