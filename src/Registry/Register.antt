-- ===== src/Registry/Register.antt =====
-- Registration: its outcome on every branch, and what holds of the registry after it.
use libdaq.Prelude.{
  ℕ, ◌+◌, CString, str_eq, str_eq_iff, eqb_ℤ, List, [], ◌∷◌, length, Option, none, some,
  Option-cases, inl, inr, Bool, true, false, not, ◌&&◌, ◌==◌, ltb, ◌↔◌, if◌then◌else◌, ◌≡◌, refl,
  arith, All,
}
use libdaq.Common.{daq_success}
use libdaq.Module.{Module, daq_api_version}
use libdaq.Registry.{
  Node, Registry, find_node, daq_find_module, replace_node, close, misses_pointers, register_module,
}

-- How often a handle is in a list of handles.
unfoldable pub count : ℕ → List ℕ → ℕ
count q [] = 0
count q (h ∷ hs) = (if h == q then 1 else 0) + count q hs

-- Whether a `dl_handle` is that handle.
unfoldable pub hits : ℕ → Option ℕ → ℕ
hits q none = 0
hits q (some h) = if h == q then 1 else 0

pub count-close :
    (q : ℕ) (h : Option ℕ) (hs : List ℕ) → count q (close h hs) ≡ hits q h + count q hs
unfolding count hits
count-close q none hs = omega arith
count-close q (some h) hs = refl

module _ {C U : Type 0} where
  -- How many nodes own the handle.
  unfoldable pub owned : ℕ → List (Node C U) → ℕ
  owned q [] = 0
  owned q (n ∷ ns) = hits q n.dl_handle + owned q ns

  -- No two nodes have modules of one name.
  abbrev pub IsUnique : List (Node C U) → Type 0
  IsUnique [] = Unit
  IsUnique (n ∷ ns) = (find_node ns n.module'.name ≡ none) × IsUnique ns

  -- The module has the version of the API and the pointers that registration demands.
  pub record IsUsable (n : Node C U) : Type 0 where
    pub same_api : n.module'.api_version ≡ daq_api_version
    pub complete : misses_pointers n.module' ≡ false

  -- The handles that were closed or that a node owns.
  abbrev pub kept : ℕ → Registry C U → ℕ
  kept q r = count q r.closed + owned q r.modules

  -- Names differ, the counter counts the nodes, and each module is usable.
  pub record IsValid (r : Registry C U) : Type 0 where
    pub unique : IsUnique r.modules
    pub counted : r.num_modules ≡ length r.modules
    pub usable : All IsUsable r.modules

  find_node-name :
      (ns : List (Node C U)) (name : CString) (n : Node C U)
      → find_node ns name ≡ some n
      → n.module'.name ≡ name
  unfolding find_node
  find_node-name [] name n h = cc
  find_node-name (m ∷ ns) name n h =
      ground (arith, str_eq_iff m.module'.name name, find_node-name ns name n)

  find_node-replace :
      (ns : List (Node C U)) (dm : Module C U) (h : Option ℕ) (name : CString)
      → find_node (replace_node ns dm h) name ≡ (
          if str_eq dm.name name
          then elim (find_node ns dm.name) [
            | none ↦ none
            | some n ↦ some (record { module' = dm; dl_handle = h })
          ]
          else find_node ns name)
  unfolding find_node replace_node
  find_node-replace [] dm h name = ground arith
  find_node-replace (m ∷ ns) dm h name = ground (
    arith,
    str_eq_iff m.module'.name name,
    str_eq_iff m.module'.name dm.name,
    str_eq_iff dm.name name,
    find_node-replace ns dm h name,
  )

  owned-replace :
      (q : ℕ) (ns : List (Node C U)) (dm : Module C U) (h : Option ℕ) (n : Node C U)
      → find_node ns dm.name ≡ some n
      → owned q (replace_node ns dm h) + hits q n.dl_handle ≡ owned q ns + hits q h
  unfolding owned find_node replace_node
  owned-replace q [] dm h n e = cc
  owned-replace q (m ∷ ns) dm h n e = ground (arith, owned-replace q ns dm h n)

  length-replace :
      (ns : List (Node C U)) (dm : Module C U) (h : Option ℕ)
      → length (replace_node ns dm h) ≡ length ns
  unfolding replace_node
  length-replace [] dm h = refl
  length-replace (m ∷ ns) dm h = ground (arith, length-replace ns dm h)

  -- A replaced node keeps its name.
  find_node-replace_none :
      (ns : List (Node C U)) (dm : Module C U) (h : Option ℕ) (name : CString)
      → find_node ns name ≡ none
      → find_node (replace_node ns dm h) name ≡ none
  unfolding find_node replace_node
  find_node-replace_none [] dm h name e = refl
  find_node-replace_none (m ∷ ns) dm h name e = ground (
    arith,
    str_eq_iff m.module'.name name,
    str_eq_iff m.module'.name dm.name,
    str_eq_iff dm.name name,
    find_node-replace_none ns dm h name,
  )

  replace-IsUnique :
      (ns : List (Node C U)) (dm : Module C U) (h : Option ℕ)
      → IsUnique ns
      → IsUnique (replace_node ns dm h)
  unfolding replace_node
  replace-IsUnique [] dm h u = tt
  replace-IsUnique (m ∷ ns) dm h u = ground (
    arith,
    str_eq_iff m.module'.name dm.name,
    find_node-replace_none ns dm h m.module'.name,
    replace-IsUnique ns dm h u.1,
  )

  replace-IsUsable :
      (ns : List (Node C U)) (dm : Module C U) (h : Option ℕ)
      → IsUsable (record { module' = dm; dl_handle = h })
      → All IsUsable ns
      → All IsUsable (replace_node ns dm h)
  unfolding replace_node
  replace-IsUsable [] dm h new us = tt
  replace-IsUsable (m ∷ ns) dm h new us = ground (arith, replace-IsUsable ns dm h new us.1)

module _ {C U : Type 0} where
  -- What registration asks of a module: its API version, its pointers, and a free name or an older
  -- module of the name.
  unfoldable pub accepts : Bool → Module C U → Registry C U → Bool
  accepts calloc_ok dm r =
      (dm.api_version == daq_api_version)
      && not (misses_pointers dm)
      && elim (daq_find_module r dm.name) [
        | none ↦ calloc_ok
        | some old ↦ ltb old.module_version dm.module_version
      ]

  -- `register_module` succeeds exactly when the module is accepted. Then a search for its name finds
  -- it, and a search for any other name finds what it found before. Otherwise the registry is as it
  -- was.
  pub register_module_lem :
      (calloc_ok : Bool) (dm : Module C U) (h : Option ℕ) (r : Registry C U)
      → let (code, r') = register_module calloc_ok dm h r in
        ((code ≡ daq_success) ↔ (accepts calloc_ok dm r ≡ true))
        × ((name : CString)
            → daq_find_module r' name ≡ (
                if accepts calloc_ok dm r && str_eq dm.name name
                then some dm
                else daq_find_module r name))
        × (accepts calloc_ok dm r ≡ false → r' ≡ r)
  unfolding register_module accepts daq_find_module find_node
  register_module_lem calloc_ok dm h r = elim (Option-cases (find_node r.modules dm.name)) [
    | inl e ↦ (ground arith, λ name. ground (arith, str_eq_iff dm.name name), ground arith)
    | inr (n, e) ↦ (
      ground arith,
      λ name. ground (arith, str_eq_iff dm.name name, find_node-replace r.modules dm h name),
      ground arith,
    )
  ]

  -- Registration keeps the names distinct, the counter exact and every module usable.
  pub register-IsValid :
      (calloc_ok : Bool) (dm : Module C U) (h : Option ℕ) (r : Registry C U)
      → IsValid r
      → IsValid (register_module calloc_ok dm h r).1
  unfolding register_module
  register-IsValid calloc_ok dm h r v = elim (Option-cases (find_node r.modules dm.name)) [
    | inl e ↦ ground arith
    | inr (n, e) ↦ ground (
      arith,
      length-replace r.modules dm h,
      replace-IsUnique r.modules dm h v.unique,
      replace-IsUsable r.modules dm h,
    )
  ]

  -- A successful registration takes the handle over; any other leaves it to the caller.
  pub register-kept :
      (q : ℕ) (calloc_ok : Bool) (dm : Module C U) (h : Option ℕ) (r : Registry C U)
      → let (code, r') = register_module calloc_ok dm h r in
        kept q r' ≡ (if eqb_ℤ code daq_success then hits q h else 0) + kept q r
  unfolding register_module owned
  register-kept q calloc_ok dm h r = elim (Option-cases (find_node r.modules dm.name)) [
    | inl e ↦ ground arith
    | inr (n, e) ↦
        ground (arith, owned-replace q r.modules dm h n e, count-close q n.dl_handle r.closed)
  ]
