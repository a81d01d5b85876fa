-- ===== src/Registry/Search.antt =====
-- The search path is searched completely: a module that can be loaded is registered afterwards.
use libdaq.Prelude.{
  ℕ, CString, str_eq, str_eq_iff, str_eq_refl, strrchr, List, [], ◌∷◌, Option, none, some,
  Bool-cases, inl, inr, Bool, true, false, ◌≡◌, ◌⊎◌, refl, arith, In,
}
use libdaq.Module.{Module, daq_api_version}
use libdaq.Registry.{
  Registry, Image, Directory, daq_find_module, misses_pointers, register_module, open_image,
  daq_load_module, load_entries, load_directories, load_static_modules, daq_load_modules,
  module_ext, dirpath, is_empty,
}
use libdaq.Registry.Register.{accepts, register_module_lem}
use libdaq.Registry.Load.{AtLeast, same-AtLeast, registered, finished, finished-modules}
use libdaq.Registry.Walk.{load_entries-Extends, load_directories-Extends, load_module-ne-nomem}

module _ {C U : Type 0} where
  -- The file loads: it is a regular file, dlopen and dlsym succeed, memory is left, and the module
  -- has the version of the API and all pointers that registration demands.
  pub record Loads (f : Image C U) (dm : Module C U) : Type 0 where
    pub stat_ok : f.stat_ok ≡ true
    pub is_reg : f.is_reg ≡ true
    pub handle : ℕ
    pub opens : f.handle ≡ some handle
    pub symbol : f.symbol ≡ some dm
    pub calloc_ok : f.calloc_ok ≡ true
    pub same_api : dm.api_version ≡ daq_api_version
    pub complete : misses_pointers dm ≡ false

  -- The directory can be opened, and an entry with the extension is a file that loads.
  pub record Offers (files : CString → Image C U) (d : Directory) (dm : Module C U) : Type 0 where
    pub named : is_empty d.path ≡ false
    pub names : List CString
    pub entries : d.entries ≡ some names
    pub name : CString
    pub listed : In name names
    pub suffix : strrchr name b'.' ≡ some module_ext
    pub loads : Loads (files (dirpath d.path name)) dm

  register-AtLeast :
      (dm : Module C U) (h : Option ℕ) (r : Registry C U)
      → dm.api_version ≡ daq_api_version
      → misses_pointers dm ≡ false
      → AtLeast (register_module true dm h r).1 dm.name dm.module_version
  unfolding accepts
  register-AtLeast dm h r same complete = elim (Bool-cases (accepts true dm r)) [
    | inl e ↦ (
      dm,
      ground (arith, (register_module_lem true dm h r).1 dm.name, str_eq_iff dm.name dm.name),
      omega arith,
    )
    | inr e ↦ older (daq_find_module r dm.name) refl e
  ]
    where
      older :
          (o : Option (Module C U))
          → daq_find_module r dm.name ≡ o
          → accepts true dm r ≡ false
          → AtLeast (register_module true dm h r).1 dm.name dm.module_version
      older none f e = absurd (ground arith)
      older (some m) f e =
          (m, ground (arith, (register_module_lem true dm h r).1 dm.name), ground arith)

  module _ (files : CString → Image C U) (dm : Module C U) where
    load_module-AtLeast :
        (p : CString) (r : Registry C U)
        → Loads (files p) dm
        → AtLeast (daq_load_module files (some p) r).1 dm.name dm.module_version
    unfolding daq_load_module open_image
    load_module-AtLeast p r l =
        rw (l.stat_ok, l.is_reg, l.opens, open_image, l.symbol, l.calloc_ok)
          (same-AtLeast (registered true dm l.handle r) (finished true dm l.handle r) dm.name
            dm.module_version (finished-modules true dm l.handle r).0
            (register-AtLeast dm (some l.handle) _ l.same_api l.complete))

    load_entries-AtLeast :
        (dir : CString) (names : List CString) (name : CString) (r : Registry C U)
        → In name names
        → strrchr name b'.' ≡ some module_ext
        → Loads (files (dirpath dir name)) dm
        → AtLeast (load_entries files dir names r).1 dm.name dm.module_version
    unfolding load_entries
    load_entries-AtLeast dir [] name r i s l = absurd i
    load_entries-AtLeast dir (n ∷ ns) name r (inl e) s l =
        let r' = (daq_load_module files (some (dirpath dir n)) r).1 in
        let s' : strrchr n b'.' ≡ some module_ext = rw e s in
        let l' : Loads (files (dirpath dir n)) dm = rw e l in
        rw (s', load_entries, str_eq_refl module_ext, load_module-ne-nomem files (dirpath dir n) r)
          ((load_entries-Extends files dir ns r').1.grows dm.name dm.module_version
            (load_module-AtLeast (dirpath dir n) r l'))
    load_entries-AtLeast dir (n ∷ ns) name r (inr i) s l =
        entry (strrchr n b'.') refl (λ q. load_entries-AtLeast dir ns name q i s l)
      where
        entry :
            (o : Option CString)
            → strrchr n b'.' ≡ o
            → ((q : Registry C U)
                → AtLeast (load_entries files dir ns q).1 dm.name dm.module_version)
            → AtLeast (load_entries files dir (n ∷ ns) r).1 dm.name dm.module_version
        entry none e rest = rw (e, load_entries) (rest r)
        entry (some p) e rest = elim (Bool-cases (str_eq p module_ext)) [
          | inl x ↦
              rw (e, load_entries, x, load_module-ne-nomem files (dirpath dir n) r)
                (rest (daq_load_module files (some (dirpath dir n)) r).1)
          | inr x ↦ rw (e, load_entries, x) (rest r)
        ]

    load_directories-AtLeast :
        (ds : List Directory) (d : Directory) (r : Registry C U)
        → In d ds
        → Offers files d dm
        → AtLeast (load_directories files ds r).1 dm.name dm.module_version
    unfolding load_directories
    load_directories-AtLeast [] d r i o = absurd i
    load_directories-AtLeast (c ∷ cs) d r (inl e) o' =
        let o : Offers files c dm = rw e o' in
        let found = load_entries-AtLeast c.path o.names o.name r o.listed o.suffix o.loads in
        let (on, grown) = load_entries-Extends files c.path o.names r in
        let (done, more) =
          load_directories-Extends files cs (load_entries files c.path o.names r).1 in
        rw (o.named, o.entries, load_directories, on) (more.grows dm.name dm.module_version found)
    load_directories-AtLeast (c ∷ cs) d r (inr i) o =
        directory c.entries refl (Bool-cases (is_empty c.path))
          (λ q. load_directories-AtLeast cs d q i o)
      where
        directory :
            (e : Option (List CString))
            → c.entries ≡ e
            → (is_empty c.path ≡ true) ⊎ (is_empty c.path ≡ false)
            → ((q : Registry C U)
                → AtLeast (load_directories files cs q).1 dm.name dm.module_version)
            → AtLeast (load_directories files (c ∷ cs) r).1 dm.name dm.module_version
        directory e p (inl x) rest = rw x (rest r)
        directory none p (inr x) rest = rw (x, p, load_directories) (rest r)
        directory (some names) p (inr x) rest =
            rw (x, p, load_directories, (load_entries-Extends files c.path names r).0)
              (rest (load_entries files c.path names r).1)

    -- After `daq_load_modules`, each module that a file with the extension in a directory of the
    -- search path offers is found under its name, in its version or a newer one. The file has to
    -- load: it is a regular file, dlopen and dlsym succeed, memory is left for its node, and the
    -- module has the API version and the pointers that registration demands.
    pub load_modules-AtLeast :
        (statics : List (Bool × Module C U)) (dirs : List Directory) (d : Directory)
        (r : Registry C U)
        → In d dirs
        → Offers files d dm
        → AtLeast (daq_load_modules files statics dirs r).1 dm.name dm.module_version
    unfolding daq_load_modules
    load_modules-AtLeast statics dirs d r i o =
        load_directories-AtLeast dirs d (load_static_modules statics r) i o
