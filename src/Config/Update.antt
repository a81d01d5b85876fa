-- ===== src/Config/Update.antt =====
-- The dictionary's operations refine a map from keys to values.
use libdaq.Prelude.{
  CString, str_eq, str_eq_iff, List, [], ◌∷◌, Option, none, some, Option-cases, inl, inr, Bool,
  fun_ext, true, ◌&&◌, if◌then◌else◌, ◌≡◌, refl, arith,
}
use libdaq.Common.{Config, DictEntry}
use libdaq.Config.{
  Allocs, set_values, free_entries, unlink_entry, daq_config_get_value, daq_config_set_value,
  daq_config_clear_value, daq_config_clear_values,
}
use libdaq.Config.Keys.{
  slot, IsUnique, find_entry-none, find_entry-some, slot-write, slot-unlink, write-IsUnique,
  unlink-IsUnique,
}

-- A map has for each key no entry, or an entry whose value may be NULL.
abbrev pub Dict : Type 0
Dict = CString → Option (Option CString)

-- The allocations that storing a value needs: a new entry, its key, and the value if it is not NULL.
unfoldable pub enough : Allocs → Option (Option CString) → Option CString → Bool
enough a none none = a.entry_ok && a.key_ok
enough a none (some s) = a.entry_ok && a.key_ok && a.value_ok
enough a (some w) none = true
enough a (some w) (some s) = a.value_ok

pub data Op : Type 0 where
  set : Allocs → CString → Option CString → Op
  clear : CString → Op
  clear_all : Op

unfoldable pub apply : Op → Dict → Dict
unfolding enough
apply (set a key v) m q = if str_eq key q then (if enough a (m key) v then some v else m q) else m q
apply (clear key) m q = if str_eq key q then none else m q
apply clear_all m q = none

unfoldable pub step : Op → Option Config → Option Config
step (set a key v) c = daq_config_set_value a c (some key) v
step (clear key) c = daq_config_clear_value c (some key)
step clear_all c = daq_config_clear_values c

unfoldable pub run : List Op → Option Config → Option Config
run [] c = c
run (op ∷ ops) c = run ops (step op c)

unfoldable pub apply_all : List Op → Dict → Dict
apply_all [] m = m
apply_all (op ∷ ops) m = apply_all ops (apply op m)

slot-set_new :
    (a : Allocs) (es : List DictEntry) (key q : CString) (v : Option CString)
    → slot es key ≡ none
    → slot (set_values a es key v) q ≡ apply (set a key v) (slot es) q
unfolding set_values apply slot
slot-set_new a es key q none h = ground (arith, find_entry-none es key h, str_eq_iff key q)
slot-set_new a es key q (some s) h = ground (arith, find_entry-none es key h, str_eq_iff key q)

slot-set_old :
    (a : Allocs) (es : List DictEntry) (key q : CString) (v w : Option CString)
    → slot es key ≡ some w
    → slot (set_values a es key v) q ≡ apply (set a key v) (slot es) q
unfolding set_values apply
slot-set_old a es key q none w h =
    ground (arith, find_entry-some es key w h, slot-write es key q none w h)
slot-set_old a es key q (some s) w h =
    ground (arith, find_entry-some es key w h, slot-write es key q (some s) w h)

-- Whatever allocations fail, a `set` stores the value or leaves every key as it was.
pub slot-set :
    (a : Allocs) (es : List DictEntry) (key q : CString) (v : Option CString)
    → slot (set_values a es key v) q ≡ apply (set a key v) (slot es) q
slot-set a es key q v = elim (Option-cases (slot es key)) [
  | inl h ↦ slot-set_new a es key q v h
  | inr (w, h) ↦ slot-set_old a es key q v w h
]

set-IsUnique :
    (a : Allocs) (es : List DictEntry) (key : CString) (v : Option CString)
    → IsUnique es
    → IsUnique (set_values a es key v)
unfolding set_values
set-IsUnique a es key v u = elim (Option-cases (slot es key)) [
  | inl h ↦ added v h
  | inr (w, h) ↦ changed v w h
]
  where
    added : (v : Option CString) → slot es key ≡ none → IsUnique (set_values a es key v)
    added none h = ground (arith, find_entry-none es key h)
    added (some s) h = ground (arith, find_entry-none es key h)

    changed : (v w : Option CString) → slot es key ≡ some w → IsUnique (set_values a es key v)
    changed none w h = ground (arith, find_entry-some es key w h, write-IsUnique es key none u)
    changed (some s) w h =
        ground (arith, find_entry-some es key w h, write-IsUnique es key (some s) u)

free_entries-nil : (es : List DictEntry) → free_entries es ≡ []
unfolding free_entries
free_entries-nil [] = refl
free_entries-nil (e ∷ es) = free_entries-nil es

-- The value that a slot shows: NULL for a missing entry and for an entry without a value.
abbrev pub shown : Option (Option CString) → Option CString
shown none = none
shown (some v) = v

get-slot :
    (c : Config) (q : CString) → daq_config_get_value (some c) (some q) ≡ shown (slot c.values q)
unfolding daq_config_get_value
get-slot c q = elim (Option-cases (slot c.values q)) [
  | inl h ↦ ground (arith, find_entry-none c.values q h)
  | inr (w, h) ↦ ground (arith, find_entry-some c.values q w h)
]

-- One operation: the keys stay distinct, and each key's entry is what the map has for it.
step-refines :
    (op : Op) (c : Config)
    → IsUnique c.values
    → (c' : Config) × (step op (some c) ≡ some c')
      × IsUnique c'.values
      × (slot c'.values ≡ apply op (slot c.values))
unfolding step daq_config_set_value daq_config_clear_value daq_config_clear_values
step-refines (set a key v) c u = (
  record c { values = set_values a c.values key v },
  refl,
  set-IsUnique a c.values key v u,
  fun_ext (λ q. slot-set a c.values key q v),
)
step-refines (clear key) c u = (
  record c { values = unlink_entry c.values key },
  refl,
  unlink-IsUnique c.values key u,
  fun_ext (λ q. unfold apply in slot-unlink c.values key q u),
)
step-refines clear_all c u = (
  record c { values = free_entries c.values },
  refl,
  rw (free_entries-nil c.values) tt,
  fun_ext (λ q. unfold apply slot in rw (free_entries-nil c.values) refl),
)

-- After any calls of `daq_config_set_value`, `daq_config_clear_value` and
-- `daq_config_clear_values`, with any allocations failing, on a configuration whose keys are
-- distinct: the keys are distinct, and `daq_config_get_value` returns for every key what the map
-- of the same calls has for it.
pub run-refines :
    (ops : List Op) (c : Config)
    → IsUnique c.values
    → (c' : Config) × (run ops (some c) ≡ some c')
      × IsUnique c'.values
      × ((q : CString)
          → daq_config_get_value (some c') (some q) ≡ shown (apply_all ops (slot c.values) q))
unfolding run apply_all
run-refines [] c u = (c, refl, u, λ q. get-slot c q)
run-refines (op ∷ ops) c u =
    let (d, done, u', e) = step-refines op c u in
    let (c', ran, u'', got) = run-refines ops d u' in (c', rw done ran, u'', rw e at got)
