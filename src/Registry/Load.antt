-- ===== src/Registry/Load.antt =====
-- Loading and unloading: no handle is lost or closed twice, no version goes back, and every good
-- module of the search path is there afterwards.
use libdaq.Prelude.{
  ℕ, ◌≤◌, CString, str_eq, str_eq_iff, ◌∷◌, Option, none, some, Bool-cases, inl, inr, Bool, ◌&&◌,
  ◌≡◌, refl, sym, arith,
}
use libdaq.Module.{Module}
use libdaq.Registry.{Registry, daq_find_module, register_module, register_image}
use libdaq.Registry.Register.{
  count, hits, kept, IsValid, accepts, register_module_lem, register-IsValid, register-kept,
}

module _ {C U : Type 0} where
  -- The invariant of the registry: it is valid, and each handle was closed or is owned as often as it
  -- was opened.
  pub record IsSound (r : Registry C U) : Type 0 where
    pub valid : IsValid r
    pub balanced : (q : ℕ) → count q r.opened ≡ kept q r

  -- A module of the name is registered, in this version or a newer one.
  abbrev pub AtLeast : Registry C U → CString → ℕ → Type 0
  AtLeast r name v = (m : Module C U) × (daq_find_module r name ≡ some m) × (v ≤ m.module_version)

  -- What was registered stays so, if not in a newer version.
  abbrev pub Grows : Registry C U → Registry C U → Type 0
  Grows r s = (name : CString) (v : ℕ) → AtLeast r name v → AtLeast s name v

  -- The invariant is kept and nothing is lost.
  pub record Extends (r s : Registry C U) : Type 0 where
    pub keeps : IsSound r → IsSound s
    pub grows : Grows r s

  pub Extends-refl : (r : Registry C U) → Extends r r
  Extends-refl r = record { keeps = λ s. s; grows = λ name v a. a }

  pub Extends-trans : (r s t : Registry C U) → Extends r s → Extends s t → Extends r t
  Extends-trans r s t e f = record {
    keeps = λ v. f.keeps (e.keeps v);
    grows = λ name v a. f.grows name v (e.grows name v a);
  }

  register-opened :
      (b : Bool) (dm : Module C U) (h : Option ℕ) (r : Registry C U)
      → (register_module b dm h r).1.opened ≡ r.opened
  unfolding register_module
  register-opened b dm h r = ground arith

  register-Grows :
      (b : Bool) (dm : Module C U) (h : Option ℕ) (r : Registry C U)
      → Grows r (register_module b dm h r).1
  unfolding accepts
  register-Grows b dm h r name v (m, found, old) =
      elim (Bool-cases (accepts b dm r && str_eq dm.name name)) [
        | inl e ↦ (
          dm,
          ground (arith, (register_module_lem b dm h r).1 name),
          ground (arith, str_eq_iff dm.name name),
        )
        | inr e ↦ (m, ground (arith, (register_module_lem b dm h r).1 name), old)
      ]

  pub static-Extends :
      (b : Bool) (dm : Module C U) (r : Registry C U) → Extends r (register_module b dm none r).1
  unfolding hits
  static-Extends b dm r = record {
    keeps = λ s. record {
      valid = register-IsValid b dm none r s.valid;
      balanced = λ q.
          ground (arith, register-kept q b dm none r, register-opened b dm none r, s.balanced q);
    };
    grows = register-Grows b dm none r;
  }

  -- The list of modules is all that a search and the validity look at.
  pub same-AtLeast :
      (r s : Registry C U) (name : CString) (v : ℕ)
      → r.modules ≡ s.modules
      → AtLeast r name v
      → AtLeast s name v
  unfolding daq_find_module
  same-AtLeast r s name v e (m, found, old) = (m, ground arith, old)

  pub same-IsValid :
      (r s : Registry C U)
      → s.modules ≡ r.modules
      → s.num_modules ≡ r.num_modules
      → IsValid r
      → IsValid s
  same-IsValid r s e n v = record {
    unique = rw e v.unique;
    counted = ground arith;
    usable = rw e v.usable;
  }

  module _ (b : Bool) (dm : Module C U) (h : ℕ) (r : Registry C U) where
    -- The registry once dlopen has given the handle, after the registration, and at the end.
    abbrev pub opened_registry : Registry C U
    opened_registry = record r { opened = h ∷ r.opened }

    abbrev pub registered : Registry C U
    registered = (register_module b dm (some h) opened_registry).1

    abbrev pub finished : Registry C U
    finished = (register_image b dm h opened_registry).1

    pub finished-modules :
        (registered.modules ≡ finished.modules) × (finished.num_modules ≡ registered.num_modules)
    unfolding register_image
    finished-modules = ground arith

    -- The handle is owned or closed once at the end.
    finished-balanced :
        (q : ℕ) → count q r.opened ≡ kept q r → count q finished.opened ≡ kept q finished
    unfolding register_image hits count
    finished-balanced q e = ground (
      arith,
      register-kept q b dm (some h) opened_registry,
      register-opened b dm (some h) opened_registry,
    )

    pub image-Extends : Extends r finished
    image-Extends = record {
      keeps = λ s. record {
        valid = same-IsValid registered finished (sym finished-modules.0) finished-modules.1 (
            register-IsValid b dm (some h) opened_registry
              (same-IsValid r opened_registry refl refl s.valid));
        balanced = λ q. finished-balanced q (s.balanced q);
      };
      grows = λ name v a. same-AtLeast registered finished name v finished-modules.0 (
          register-Grows b dm (some h) opened_registry name v
            (same-AtLeast r opened_registry name v refl a));
    }
