-- ===== src/ModOps/Total.antt =====
-- Which calls can go through a NULL pointer, for a module that was registered.
use libdaq.Prelude.{
  ℕ, zero, suc, CString, Option, none, some, Bool, true, false, ◌≡◌, ◌≢◌, refl, arith, Option-cases,
  inl, inr, Bool-cases, List, [], ◌∷◌, All, str_eq, str_eq_refl,
}
use libdaq.Common.{Config, daq_success}
use libdaq.Module.{Module, daq_api_version}
use libdaq.Names.{name_at, daq_mode_string}
use libdaq.ModOps.{
  refuse, when_status, daq_set_filter, daq_start, daq_acquire, daq_acquire_with_meta, daq_inject,
  daq_breakloop, daq_stop, daq_shutdown, daq_initialize, mode_refused,
}
use libdaq.ModOps.Query.{
  daq_check_status, daq_get_stats, daq_reset_stats, daq_get_snaplen, daq_get_capabilities,
  daq_get_datalink_type, daq_get_error, daq_clear_error, daq_get_device_index, daq_hup_prep,
  daq_hup_apply, daq_hup_post, daq_modify_flow, daq_query_flow, daq_dp_add_dc,
}
use libdaq.ModOps.Calls.{Call, perform}
use libdaq.Registry.{
  Node, Registry, register_module, misses_pointers, daq_find_module, find_node, is_null,
}
use libdaq.Registry.Register.{accepts, register_module_lem, IsUsable, IsValid}

abbrev pub Runs {ℓ} : {A : Type ℓ} → Option A → Type 0
Runs o = is_null o ≡ false

mode_refused-Runs : (name : CString) (mode len : ℕ) → Runs (mode_refused name mode len)
unfolding mode_refused daq_mode_string name_at
mode_refused-Runs name zero len = refl
mode_refused-Runs name (suc zero) len = refl
mode_refused-Runs name (suc (suc zero)) len = refl
mode_refused-Runs name (suc (suc (suc n))) len = ground arith

module _ {C U : Type 0} where
  -- What registration demands, pointer by pointer.
  pub record Complete (m : Module C U) : Type 0 where
    pub initialize : Runs m.initialize
    pub set_filter : Runs m.set_filter
    pub start : Runs m.start
    pub acquire : Runs m.acquire
    pub inject : Runs m.inject
    pub breakloop : Runs m.breakloop
    pub stop : Runs m.stop
    pub shutdown : Runs m.shutdown
    pub check_status : Runs m.check_status
    pub get_stats : Runs m.get_stats
    pub reset_stats : Runs m.reset_stats
    pub get_snaplen : Runs m.get_snaplen
    pub get_capabilities : Runs m.get_capabilities
    pub get_errbuf : Runs m.get_errbuf
    pub set_errbuf : Runs m.set_errbuf
    pub get_device_index : Runs m.get_device_index

  misses_pointers-Complete : (m : Module C U) → misses_pointers m ≡ false → Complete m
  unfolding misses_pointers
  misses_pointers-Complete m h = ground arith

  perform-Runs :
      (k : Call U) (m : Module C U) (h : Option C)
      → Complete m
      → k ≢ Call.get_datalink_type
      → Runs (perform k (some m) h)
  unfolding perform daq_set_filter daq_start daq_acquire daq_acquire_with_meta daq_inject
      daq_breakloop daq_stop daq_shutdown daq_check_status daq_get_stats daq_reset_stats
      daq_get_snaplen daq_get_capabilities daq_get_error daq_clear_error daq_get_device_index
      daq_hup_prep daq_hup_apply daq_hup_post daq_modify_flow daq_query_flow daq_dp_add_dc refuse
      when_status
  perform-Runs Call.get_datalink_type m h c n = absurd (n refl)
  perform-Runs k m none c n = ground arith
  perform-Runs k m (some x) c n = ground arith

  initialize-Runs :
      (m : Module C U) (config : Option Config) (has_handle has_errbuf : Bool) (len : ℕ)
      → misses_pointers m ≡ false
      → Runs (daq_initialize (some m) config has_handle has_errbuf len)
  unfolding daq_initialize misses_pointers
  initialize-Runs m (some config) true true len h =
      ground (arith, mode_refused-Runs m.name config.mode len)
  initialize-Runs m config has_handle has_errbuf len h = ground arith

  new_module_accepted :
      (dm : Module C U) (r : Registry C U)
      → dm.api_version ≡ daq_api_version
      → Complete dm
      → daq_find_module r dm.name ≡ none
      → accepts true dm r ≡ true
  unfolding accepts misses_pointers
  new_module_accepted dm r same_api complete free = ground arith

  find_node-IsUsable :
      (ns : List (Node C U)) (name : CString) (n : Node C U)
      → All IsUsable ns
      → find_node ns name ≡ some n
      → misses_pointers n.module' ≡ false
  unfolding find_node
  find_node-IsUsable [] name n a e = cc
  find_node-IsUsable (m ∷ ns) name n a e = elim (Bool-cases (str_eq m.module'.name name)) [
    | inl here ↦ ground arith
    | inr there ↦ find_node-IsUsable ns name n a.1 (ground arith)
  ]

  find_module_complete :
      (r : Registry C U) (name : CString) (m : Module C U)
      → IsValid r
      → daq_find_module r name ≡ some m
      → misses_pointers m ≡ false
  unfolding daq_find_module
  find_module_complete r name m v e = elim (Option-cases (find_node r.modules name)) [
    | inl x ↦ absurd (ground arith)
    | inr (n, x) ↦ ground (arith, find_node-IsUsable r.modules name n v.usable x)
  ]

  -- With a module that `daq_find_module` returns from a valid registry, neither `daq_initialize` nor
  -- any call with a handle, NULL or not, goes through a NULL pointer, for any arguments. The one
  -- exception is `daq_get_datalink_type`.
  pub registered-Runs :
      (r : Registry C U) (name : CString) (m : Module C U)
      → IsValid r
      → daq_find_module r name ≡ some m
      → ((config : Option Config) (has_handle has_errbuf : Bool) (len : ℕ)
          → Runs (daq_initialize (some m) config has_handle has_errbuf len))
        × ((k : Call U) (h : Option C) → k ≢ Call.get_datalink_type → Runs (perform k (some m) h))
  registered-Runs r name m v e =
      let complete = find_module_complete r name m v e in
      (
        λ config has_handle has_errbuf len.
            initialize-Runs m config has_handle has_errbuf len complete,
        λ k h n. perform-Runs k m h (misses_pointers-Complete m complete) n,
      )

  -- A module of the right API version that has every other pointer, but not `get_datalink_type`, and
  -- whose name is new, is registered: `register_module` returns success if calloc does not fail. Then
  -- asking the module that `daq_find_module` returns for the datalink type of an instance calls NULL.
  pub null_datalink_faults :
      (dm : Module C U) (dl_handle : Option ℕ) (r : Registry C U) (c : C)
      → dm.api_version ≡ daq_api_version
      → Complete dm
      → dm.get_datalink_type ≡ none
      → daq_find_module r dm.name ≡ none
      → let (code, r') = register_module true dm dl_handle r in
        (code ≡ daq_success) × (daq_get_datalink_type (daq_find_module r' dm.name) (some c) ≡ none)
  unfolding daq_get_datalink_type
  null_datalink_faults dm dl_handle r c same_api complete missing free =
      let ok = new_module_accepted dm r same_api complete free in
      let (code, found, unchanged) = register_module_lem true dm dl_handle r in
      (code.1 ok, ground (arith, found dm.name, str_eq_refl dm.name))
