-- ===== src/Registry.antt =====
-- api/daq_base.c: the list of registered modules. The registry is the static variables
-- `module_list` and `num_modules`, with the handles that dlopen gave and dlclose took so far. What
-- the file system, the dynamic loader and the allocator answer is an argument.
pub mod Register
pub mod Load
pub mod Walk
pub mod Search
pub mod Listing
mod Tests
use libdaq.Prelude.{
  ℕ, suc, ◌-◌, ◌+◌, ℤ, pos, CString, str_eq, strrchr, codes, take, eqb_ℤ, leb, List, [], ◌∷◌, ◌++◌,
  Option, none, some, Bool, true, false, not, ◌&&◌, ◌||◌, ◌==◌, if◌then◌else◌,
}
use libdaq.Common.{daq_success, daq_error, daq_error_nomem, daq_error_inval, daq_error_exists}
use libdaq.Module.{Module, daq_api_version}

abbrev pub is_empty : CString → Bool
is_empty [] = true
is_empty (c ∷ s) = false

abbrev pub is_null {ℓ} : {A : Type ℓ} → Option A → Bool
is_null none = true
is_null (some a) = false

-- DAQ_ListNode_t.
pub record Node (C U : Type 0) : Type 0 where
  pub module' : Module C U
  pub dl_handle : Option ℕ

pub record Registry (C U : Type 0) : Type 0 where
  pub modules : List (Node C U)
  pub num_modules : ℕ
  pub opened : List ℕ
  pub closed : List ℕ

-- What loading the file at a path meets: stat, the S_IFREG bit, dlopen, dlsym and the `calloc`.
pub record Image (C U : Type 0) : Type 0 where
  pub stat_ok : Bool
  pub is_reg : Bool
  pub handle : Option ℕ
  pub symbol : Option (Module C U)
  pub calloc_ok : Bool

-- A directory of the search path: its name, and its entries if it can be opened.
pub record Directory : Type 0 where
  pub path : CString
  pub entries : Option (List CString)

-- MODULE_EXT.
abbrev pub module_ext : CString
module_ext = codes ".so"

-- `if (dl_handle) dlclose(dl_handle)`.
abbrev pub close : Option ℕ → List ℕ → List ℕ
close none hs = hs
close (some h) hs = h ∷ hs

-- `snprintf(dirpath, NAME_SIZE, "%s/%s", ...)`.
abbrev pub dirpath : CString → CString → CString
dirpath dir name = take 511 (dir ++ codes "/" ++ name)

module _ {C U : Type 0} where
  -- The loops that look for a node with the name.
  unfoldable pub find_node : List (Node C U) → CString → Option (Node C U)
  find_node [] name = none
  find_node (n ∷ ns) name = if str_eq n.module'.name name then some n else find_node ns name

  -- `daq_find_module`.
  unfoldable pub daq_find_module : Registry C U → CString → Option (Module C U)
  daq_find_module r name = elim (find_node r.modules name) [ none ↦ none | some n ↦ some n.module' ]

  -- `node->module = dm; node->dl_handle = dl_handle;` on the node that was found.
  unfoldable pub replace_node : List (Node C U) → Module C U → Option ℕ → List (Node C U)
  replace_node [] dm h = []
  replace_node (n ∷ ns) dm h =
      if str_eq n.module'.name dm.name
      then record { module' = dm; dl_handle = h } ∷ ns
      else n ∷ replace_node ns dm h

  -- The check for missing function pointers.
  unfoldable pub misses_pointers : Module C U → Bool
  misses_pointers dm =
      is_null dm.initialize
      || is_null dm.set_filter
      || is_null dm.start
      || is_null dm.acquire
      || is_null dm.inject
      || is_null dm.breakloop
      || is_null dm.stop
      || is_null dm.shutdown
      || is_null dm.check_status
      || is_null dm.get_stats
      || is_null dm.reset_stats
      || is_null dm.get_snaplen
      || is_null dm.get_capabilities
      || is_null dm.get_errbuf
      || is_null dm.set_errbuf
      || is_null dm.get_device_index

  -- A new node in front, if `calloc` gives one.
  unfoldable pub add_module : Bool → Module C U → Option ℕ → Registry C U → ℤ × Registry C U
  add_module calloc_ok dm h r = if not calloc_ok then (daq_error_nomem, r) else (
    daq_success,
    record r {
      modules = record { module' = dm; dl_handle = h } ∷ r.modules;
      num_modules = suc r.num_modules;
    },
  )

  -- A module that is there already: a newer version takes its node.
  unfoldable pub update_module : Node C U → Module C U → Option ℕ → Registry C U → ℤ × Registry C U
  update_module n dm h r =
      if leb dm.module_version n.module'.module_version then (daq_error_exists, r) else (
        daq_success,
        record r { modules = replace_node r.modules dm h; closed = close n.dl_handle r.closed },
      )

  unfoldable pub register_module : Bool → Module C U → Option ℕ → Registry C U → ℤ × Registry C U
  unfolding add_module update_module
  register_module calloc_ok dm h r =
      if not (dm.api_version == daq_api_version)
      then (daq_error, r)
      else if misses_pointers dm
      then (daq_error, r)
      else elim (find_node r.modules dm.name) [
        | none ↦ add_module calloc_ok dm h r
        | some n ↦ update_module n dm h r
      ]

  -- dlopen gave a handle: it is closed again if the module cannot be registered.
  unfoldable pub register_image : Bool → Module C U → ℕ → Registry C U → ℤ × Registry C U
  register_image calloc_ok dm h r =
      let (rval, r') = register_module calloc_ok dm (some h) r in
      if eqb_ℤ rval daq_success
      then (daq_success, r')
      else (daq_error, record r' { closed = h ∷ r'.closed })

  unfoldable pub open_image : Image C U → Registry C U → ℤ × Registry C U
  unfolding register_image
  open_image f r = elim f.handle [
    | none ↦ (daq_error, r)
    | some h ↦
        let r' : Registry C U = record r { opened = h ∷ r.opened } in
        elim f.symbol [
          | none ↦ (daq_error, record r' { closed = h ∷ r'.closed })
          | some dm ↦ register_image f.calloc_ok dm h r'
        ]
  ]

  module _ (files : CString → Image C U) where
    -- `daq_load_module`. NULL is `none`.
    unfoldable pub daq_load_module : Option CString → Registry C U → ℤ × Registry C U
    unfolding open_image
    daq_load_module none r = (daq_error_inval, r)
    daq_load_module (some filename) r =
        if not (files filename).stat_ok || not (files filename).is_reg
        then (daq_error, r)
        else open_image (files filename) r

    -- The `readdir` loop of one directory: it ends early, with `true`, on DAQ_ERROR_NOMEM.
    unfoldable pub load_entries : CString → List CString → Registry C U → Bool × Registry C U
    load_entries dir [] r = (false, r)
    load_entries dir (name ∷ names) r = elim (strrchr name b'.') [
      | none ↦ load_entries dir names r
      | some p ↦
          let rest = load_entries dir names r in
          let (ret, r') = daq_load_module (some (dirpath dir name)) r in
          let rest' = load_entries dir names r' in
          if not (str_eq p module_ext)
          then rest
          else if eqb_ℤ ret daq_error_nomem
          then (true, r')
          else rest'
    ]

    unfoldable pub load_directories : List Directory → Registry C U → ℤ × Registry C U
    load_directories [] r = (daq_success, r)
    load_directories (d ∷ ds) r =
        let skipped = load_directories ds r in
        if is_empty d.path then skipped else elim d.entries [
          | none ↦ skipped
          | some names ↦
              let (nomem, r') = load_entries d.path names r in
              let rest = load_directories ds r' in if nomem then (daq_error_nomem, r') else rest
        ]

  -- `load_static_modules`: the modules have no handle, and failures are only reported.
  unfoldable pub load_static_modules : List (Bool × Module C U) → Registry C U → Registry C U
  load_static_modules [] r = r
  load_static_modules ((calloc_ok, dm) ∷ dms) r =
      load_static_modules dms (register_module calloc_ok dm none r).1

  -- `daq_load_modules`, built with STATIC_MODULE_LIST (without it the list of modules is empty).
  unfoldable pub daq_load_modules :
      (CString → Image C U)
      → List (Bool × Module C U)
      → List Directory
      → Registry C U
      → ℤ × Registry C U
  daq_load_modules files statics dirs r =
      load_directories files dirs (load_static_modules statics r)

  -- The loop of `daq_unload_modules`. (The counter is an `int`; it is never below the nodes left.)
  unfoldable pub unload_nodes : List (Node C U) → ℕ → List ℕ → Registry C U → Registry C U
  unload_nodes [] num closed r = record r { modules = []; num_modules = num; closed = closed }
  unload_nodes (n ∷ ns) num closed r = unload_nodes ns (num - 1) (close n.dl_handle closed) r

  -- `daq_unload_modules`.
  unfoldable pub daq_unload_modules : Registry C U → Registry C U
  unfolding unload_nodes
  daq_unload_modules r = unload_nodes r.modules r.num_modules r.closed r
