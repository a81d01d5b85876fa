-- ===== src/Registry/Listing/Filled.antt =====
-- The list is complete or not there at all, and gives back every block.
use libdaq.Prelude.{
  ℕ, zero, suc, ◌+◌, ◌-◌, ℤ, pos, List, [], ◌∷◌, ◌++◌, length, set, replicate, map, Option, none,
  some, Bool, true, false, ◌&&◌, ltb, lt→ltb, if◌then◌else◌, Bool-cases, inl, inr, ◌≡◌, refl, arith,
  ap, sym, length-append, length-map, length-replicate,
}
use mathlib.Core.List.{append_assoc, append-nil}
use libdaq.Common.{daq_error_nomem}
use libdaq.Registry.{Node, Registry}
use libdaq.Registry.Register.{IsValid}
use libdaq.Registry.Listing.{
  ModuleInfo, blank, free_names, daq_free_module_list, give_up, describe, fill, daq_get_module_list,
}

set-append :
    (done rest : List ModuleInfo) (m v : ModuleInfo)
    → set (done ++ m ∷ rest) (length done) v ≡ (done ++ v ∷ []) ++ rest
set-append [] rest m v = refl
set-append (d ∷ done) rest m v = ap (◌∷◌ d) (set-append done rest m v)

-- Whether the copies from the given index on succeed.
pub all_copied : (ℕ → Bool) → ℕ → ℕ → Bool
all_copied dup_ok idx zero = true
all_copied dup_ok idx (suc n) = dup_ok idx && all_copied dup_ok (suc idx) n

module _ {C U : Type 0} where
  -- The array when the names of the first nodes are copied, and blank elements follow.
  abbrev partial : List (Node C U) → ℕ → List ModuleInfo
  partial ps n = map describe ps ++ replicate n blank

  length-partial : (ps : List (Node C U)) (n : ℕ) → length (partial ps n) ≡ length ps + n
  length-partial ps n = omega (
    arith,
    length-append (map describe ps) (replicate n blank),
    length-map ps describe,
    length-replicate n blank,
  )

  partial-set :
      (ps : List (Node C U)) (m : Node C U) (n : ℕ)
      → set (partial ps (suc n)) (length ps) (describe m) ≡ partial (ps ++ m ∷ []) n
  partial-set [] m n = refl
  partial-set (p ∷ ps) m n = ap (◌∷◌ (describe p)) (partial-set ps m n)

  free_names-partial :
      (ps : List (Node C U)) (n live : ℕ)
      → free_names (length ps) (partial ps n) (length ps + live) ≡ some live
  unfolding free_names
  free_names-partial [] n live = ground arith
  free_names-partial (p ∷ ps) n live =
      let e : suc (length ps) + live - 1 ≡ length ps + live = omega arith in
      rw e (free_names-partial ps n live)

  give_up-partial :
      (ps : List (Node C U)) (n live : ℕ)
      → give_up (partial ps n) (length ps) (length ps + suc live)
        ≡ some (daq_error_nomem, none, live)
  unfolding give_up daq_free_module_list
  give_up-partial ps n live = ground (arith, free_names-partial ps n (suc live))

  -- What the loop gives from a partial array: the whole list, or nothing with the heap as before.
  abbrev pub filled_reply :
      (ℕ → Bool) → ℕ → List (Node C U) → ℕ → ℕ → ℕ → Option (ℤ × Option (List ModuleInfo) × ℕ)
  filled_reply dup_ok num ns idx n live =
      if all_copied dup_ok idx n
      then some (pos num, some (map describe ns), length ns + suc live)
      else some (daq_error_nomem, none, live)

  fill-filled_reply :
      (dup_ok : ℕ → Bool) (num : ℕ) (ps ns : List (Node C U)) (live : ℕ)
      → fill dup_ok num ns (length ps) (partial ps (length ns)) (length ps + suc live)
        ≡ filled_reply dup_ok num (ps ++ ns) (length ps) (length ns) live
  unfolding fill all_copied
  fill-filled_reply dup_ok num ps [] live = rw (append-nil, append-nil) refl
  fill-filled_reply dup_ok num ps (n ∷ ns) live =
      let qs = ps ++ n ∷ [] in
      let inside : ltb (length ps) (length (partial ps (suc (length ns)))) ≡ true =
        lt→ltb _ _ (omega (arith, length-partial ps (suc (length ns)))) in
      let longer : length qs ≡ suc (length ps) = omega (arith, length-append ps (n ∷ [])) in
      let used : length ps + suc live + 1 ≡ suc (length ps) + suc live = omega arith in
      elim (Bool-cases (dup_ok (length ps))) [
        | inl ok ↦
            rw (inside, ok, partial-set ps n (length ns), used)
              (rw (longer, append_assoc ps (n ∷ []) ns) at
                (fill-filled_reply dup_ok num qs ns live))
        | inr bad ↦ rw (inside, bad) (give_up-partial ps (suc (length ns)) live)
      ]

  -- With a place for the list and a valid registry, `daq_get_module_list` never writes outside the
  -- array. It stores the description of every module in the order of the registry and returns their
  -- number, with one block for the array and one for each name; or, if `calloc` or the copy of a
  -- name fails, it returns DAQ_ERROR_NOMEM, stores nothing and leaves no block behind.
  pub get_module_list_lem :
      (calloc_ok : Bool) (dup_ok : ℕ → Bool) (r : Registry C U) (live : ℕ)
      → IsValid r
      → daq_get_module_list true calloc_ok dup_ok r live ≡ (
          if calloc_ok && all_copied dup_ok 0 (length r.modules)
          then some (pos r.num_modules, some (map describe r.modules), length r.modules + suc live)
          else some (daq_error_nomem, none, live))
  unfolding daq_get_module_list
  get_module_list_lem false dup_ok r live v = refl
  get_module_list_lem true dup_ok r live v =
      let e : live + 1 ≡ 0 + suc live = omega arith in
      rw (v.counted, e) (fill-filled_reply dup_ok (length r.modules) [] r.modules live)

  -- `daq_free_module_list` on such a list with its number releases exactly its blocks.
  pub free_module_list_lem :
      (r : Registry C U) (live : ℕ)
      → IsValid r
      → daq_free_module_list
          (some (map describe r.modules))
          (pos r.num_modules)
          (length r.modules + suc live)
        ≡ some live
  unfolding daq_free_module_list
  free_module_list_lem r live v =
      rw (v.counted, sym (append-nil (map describe r.modules)))
        (ground (arith, free_names-partial r.modules 0 (suc live)))
