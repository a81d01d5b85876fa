-- ===== src/Registry/Walk.antt =====
-- Loading along the search path, and unloading.
use libdaq.Prelude.{
  ℕ, ◌+◌, ◌-◌, CString, str_eq, strrchr, eqb_ℤ, List, [], ◌∷◌, length, Option, none, some,
  Bool-cases, inl, inr, Bool, true, false, not, ◌||◌, ◌≡◌, ◌⊎◌, refl, arith,
}
use libdaq.Common.{daq_success, daq_error_nomem}
use libdaq.Module.{Module}
use libdaq.Registry.{
  Node, Registry, Image, Directory, close, register_module, register_image, open_image,
  daq_load_module, load_entries, load_directories, load_static_modules, daq_load_modules,
  unload_nodes, daq_unload_modules, module_ext, dirpath, is_empty,
}
use libdaq.Registry.Register.{count, owned, count-close}
use libdaq.Registry.Load.{
  IsSound, AtLeast, Extends, Extends-refl, Extends-trans, static-Extends, image-Extends,
  same-AtLeast, same-IsValid,
}

module _ {C U : Type 0} where
  no_symbol-Extends :
      (h : ℕ) (r : Registry C U)
      → Extends r (record r { opened = h ∷ r.opened; closed = h ∷ r.closed })
  unfolding count
  no_symbol-Extends h r = record {
    keeps = λ s. record {
      valid = same-IsValid r _ refl refl s.valid;
      balanced = λ q. ground (arith, s.balanced q);
    };
    grows = λ name v a. same-AtLeast r _ name v refl a;
  }

  open_image-Extends : (f : Image C U) (r : Registry C U) → Extends r (open_image f r).1
  unfolding open_image
  open_image-Extends f r = go f.handle f.symbol refl refl
    where
      go :
          (h : Option ℕ) (dm : Option (Module C U))
          → f.handle ≡ h
          → f.symbol ≡ dm
          → Extends r (open_image f r).1
      go none dm e e' = rw (e, open_image) (Extends-refl r)
      go (some h) none e e' = rw (e, e', open_image) (no_symbol-Extends h r)
      go (some h) (some dm) e e' = rw (e, e', open_image) (image-Extends f.calloc_ok dm h r)

  module _ (files : CString → Image C U) where
    pub load_module-Extends :
        (p : CString) (r : Registry C U) → Extends r (daq_load_module files (some p) r).1
    unfolding daq_load_module
    load_module-Extends p r = elim (Bool-cases (not (files p).stat_ok || not (files p).is_reg)) [
      | inl e ↦ rw e (Extends-refl r)
      | inr e ↦ rw e (open_image-Extends (files p) r)
    ]

    -- Running out of memory is reported as DAQ_ERROR.
    pub load_module-ne-nomem :
        (p : CString) (r : Registry C U)
        → eqb_ℤ (daq_load_module files (some p) r).0 daq_error_nomem ≡ false
    unfolding daq_load_module open_image register_image
    load_module-ne-nomem p r = ground arith

    -- The loop of a directory is never left early, and it extends the registry.
    abbrev pub Walks : CString → List CString → Registry C U → Type 0
    Walks dir names r =
        ((load_entries files dir names r).0 ≡ false) × Extends r (load_entries files dir names r).1

    pub load_entries-Extends :
        (dir : CString) (names : List CString) (r : Registry C U) → Walks dir names r
    unfolding load_entries
    load_entries-Extends dir [] r = (refl, Extends-refl r)
    load_entries-Extends dir (name ∷ names) r =
        entry (strrchr name b'.') refl (load_entries-Extends dir names r)
          (load_entries-Extends dir names (daq_load_module files (some (dirpath dir name)) r).1)
      where
        entry :
            (o : Option CString)
            → strrchr name b'.' ≡ o
            → Walks dir names r
            → Walks dir names (daq_load_module files (some (dirpath dir name)) r).1
            → Walks dir (name ∷ names) r
        entry none e rest rest' = rw (e, load_entries) rest
        entry (some p) e rest rest' =
            let skip = load_module-ne-nomem (dirpath dir name) r in
            let grown = load_module-Extends (dirpath dir name) r in
            elim (Bool-cases (str_eq p module_ext)) [
              | inl x ↦ rw (e, load_entries, x, skip) (rest'.0, Extends-trans r _ _ grown rest'.1)
              | inr x ↦ rw (e, load_entries, x) rest
            ]

    -- The search path is always walked to its end.
    abbrev pub WalksAll : List Directory → Registry C U → Type 0
    WalksAll ds r =
        ((load_directories files ds r).0 ≡ daq_success) × Extends r (load_directories files ds r).1

    pub load_directories-Extends : (ds : List Directory) (r : Registry C U) → WalksAll ds r
    unfolding load_directories
    load_directories-Extends [] r = (refl, Extends-refl r)
    load_directories-Extends (d ∷ ds) r =
        directory d.entries refl (Bool-cases (is_empty d.path)) (load_directories-Extends ds)
      where
        directory :
            (o : Option (List CString))
            → d.entries ≡ o
            → (is_empty d.path ≡ true) ⊎ (is_empty d.path ≡ false)
            → ((s : Registry C U) → WalksAll ds s)
            → WalksAll (d ∷ ds) r
        directory o e (inl x) rest = rw x (rest r)
        directory none e (inr x) rest = rw (x, e, load_directories) (rest r)
        directory (some names) e (inr x) rest =
            let (on, grown) = load_entries-Extends d.path names r in
            let (done, more) = rest (load_entries files d.path names r).1 in
            rw (x, e, load_directories, on) (done, Extends-trans r _ _ grown more)

  load_static_modules-Extends :
      (dms : List (Bool × Module C U)) (r : Registry C U) → Extends r (load_static_modules dms r)
  unfolding load_static_modules
  load_static_modules-Extends [] r = Extends-refl r
  load_static_modules-Extends ((b, dm) ∷ dms) r =
      Extends-trans r _ _ (static-Extends b dm r)
        (load_static_modules-Extends dms (register_module b dm none r).1)

  -- Whatever the file system, the loader and the allocator answer, `daq_load_modules` returns
  -- DAQ_SUCCESS. It keeps the registry sound: names stay distinct, the counter counts the nodes,
  -- every module is usable, and each handle that was opened is closed or owned as often. What was
  -- registered stays registered, in the same version or a newer one.
  pub load_modules-Extends :
      (files : CString → Image C U) (statics : List (Bool × Module C U)) (dirs : List Directory)
      (r : Registry C U)
      → ((daq_load_modules files statics dirs r).0 ≡ daq_success)
        × (IsSound r → IsSound (daq_load_modules files statics dirs r).1)
        × ((name : CString) (v : ℕ)
            → AtLeast r name v
            → AtLeast (daq_load_modules files statics dirs r).1 name v)
  unfolding daq_load_modules
  load_modules-Extends files statics dirs r =
      let first = load_static_modules-Extends statics r in
      let (done, next) = load_directories-Extends files dirs (load_static_modules statics r) in
      let whole = Extends-trans r _ _ first next in (done, whole.keeps, whole.grows)

  unload_nodes_lem :
      (ns : List (Node C U)) (num : ℕ) (closed : List ℕ) (r : Registry C U)
      → num ≡ length ns
      → let s = unload_nodes ns num closed r in
        (s.modules ≡ [])
        × (s.num_modules ≡ 0)
        × (s.opened ≡ r.opened)
        × ((q : ℕ) → count q s.closed ≡ owned q ns + count q closed)
  unfolding unload_nodes owned
  unload_nodes_lem [] num closed r e = (refl, e, refl, λ q. omega arith)
  unload_nodes_lem (n ∷ ns) num closed r e =
      let (m, z, o, c) = unload_nodes_lem ns (num - 1) (close n.dl_handle closed) r (omega arith) in
      (m, z, o, λ q. omega (arith, c q, count-close q n.dl_handle closed))

  -- Unloading a sound registry leaves no module, the counter at 0, and every handle closed exactly
  -- as often as it was opened.
  pub unload_modules_lem :
      (r : Registry C U)
      → IsSound r
      → let s = daq_unload_modules r in
        (s.modules ≡ []) × (s.num_modules ≡ 0) × ((q : ℕ) → count q s.opened ≡ count q s.closed)
  unfolding daq_unload_modules
  unload_modules_lem r s =
      let (m, z, o, c) = unload_nodes_lem r.modules r.num_modules r.closed r s.valid.counted in
      (m, z, λ q. rw o (omega (arith, c q, s.balanced q)))
