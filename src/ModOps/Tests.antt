-- ===== src/ModOps/Tests.antt =====
-- A life of an instance of the sample module, and the theorems on registered modules.
use libdaq.Prelude.{
  true, ℕ, pos, codes, List, [], ◌∷◌, Option, none, some, Bool, ◌≡◌, ◌≢◌, refl, str_eq,
}
use libdaq.Common.{daq_success, state_started, Config, state_initialized, state_stopped}
use libdaq.Samples.{no_datalink, sample}
use libdaq.Registry.{Registry, find_node, daq_find_module, misses_pointers}
use libdaq.Registry.Register.{IsValid, accepts}
use libdaq.ModOps.{
  daq_initialize, daq_set_filter, daq_start, daq_acquire, daq_inject, daq_stop, daq_shutdown,
  daq_breakloop, refuse, when_status,
}
use libdaq.ModOps.Query.{daq_get_stats, daq_get_datalink_type}
use libdaq.ModOps.Calls.{Call, perform}
use libdaq.ModOps.History.{run}
use libdaq.Registry.{register_module}
use libdaq.ModOps.Total.{Runs, Complete, registered-Runs, null_datalink_faults}

program : Unit {0}
unfolding daq_set_filter daq_start daq_acquire daq_inject daq_stop daq_shutdown daq_breakloop
    daq_get_stats daq_get_datalink_type refuse when_status perform run str_eq find_node
    daq_find_module misses_pointers accepts
program = tt

abbrev life : List (Call ℕ)
life =
    Call.set_filter (some (codes "tcp"))
    ∷ Call.start
    ∷ Call.inject none none 0 (pos 0)
    ∷ Call.stop
    ∷ Call.start
    ∷ []

life_stops : run sample life (some state_initialized) ≡ some (some state_stopped)
unfolding program
life_stops = refl

abbrev one_module : Registry ℕ ℕ
one_module = record {
  modules = record { module' = sample; dl_handle = none } ∷ [];
  num_modules = 1;
  opened = [];
  closed = [];
}

one_module-IsValid : IsValid one_module
unfolding program
one_module-IsValid = record {
  unique = (refl, tt);
  counted = refl;
  usable = (record { same_api = refl; complete = refl }, tt);
}

registered-Runs_example :
    ((config : Option Config) (has_handle has_errbuf : Bool) (len : ℕ)
      → Runs (daq_initialize (some sample) config has_handle has_errbuf len))
    × ((k : Call ℕ) (h : Option ℕ) → k ≢ Call.get_datalink_type → Runs (perform k (some sample) h))
unfolding program
registered-Runs_example = registered-Runs one_module (codes "sample") sample one_module-IsValid refl

no_datalink-Complete : Complete no_datalink
no_datalink-Complete = record {
  initialize = refl;
  set_filter = refl;
  start = refl;
  acquire = refl;
  inject = refl;
  breakloop = refl;
  stop = refl;
  shutdown = refl;
  check_status = refl;
  get_stats = refl;
  reset_stats = refl;
  get_snaplen = refl;
  get_capabilities = refl;
  get_errbuf = refl;
  set_errbuf = refl;
  get_device_index = refl;
}

null_datalink_faults_example :
    let (code, r') = register_module true no_datalink (some 4) one_module in
    (code ≡ daq_success)
    × (daq_get_datalink_type (daq_find_module r' (codes "nolink")) (some state_started) ≡ none)
unfolding program
null_datalink_faults_example =
    null_datalink_faults no_datalink (some 4) one_module state_started refl no_datalink-Complete
      refl refl
