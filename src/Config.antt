-- ===== src/Config.antt =====
-- api/daq_base.c: the dictionary of a configuration. The linked list is a list of entries, the
-- first node first. Which allocations succeed is an argument, since the allocator decides it.
pub mod Keys
pub mod Update
mod Tests
use libdaq.Prelude.{
  CString, str_eq, List, [], ◌∷◌, Option, none, some, Bool, true, false, if◌then◌else◌, not,
}
use libdaq.Common.{Config, DictEntry}

-- The outcome of the up to three allocations of one `daq_config_set_value`.
pub record Allocs : Type 0 where
  pub entry_ok : Bool
  pub key_ok : Bool
  pub value_ok : Bool

-- The search loops: the entry with the key, from the first node on.
unfoldable pub find_entry : List DictEntry → CString → Option DictEntry
find_entry [] key = none
find_entry (e ∷ es) key = if str_eq e.key key then some e else find_entry es key

-- `entry->value = new_value` on the entry that the search found.
unfoldable pub write_entry : List DictEntry → CString → Option CString → List DictEntry
write_entry [] key v = []
write_entry (e ∷ es) key v =
    if str_eq e.key key then record e { value = v } ∷ es else e ∷ write_entry es key v

-- Unlinking of the first entry with the key.
unfoldable pub unlink_entry : List DictEntry → CString → List DictEntry
unlink_entry [] key = []
unlink_entry (e ∷ es) key = if str_eq e.key key then es else e ∷ unlink_entry es key

-- `daq_config_get_value`. NULL is `none`.
unfoldable pub daq_config_get_value : Option Config → Option CString → Option CString
daq_config_get_value none key = none
daq_config_get_value (some config) none = none
daq_config_get_value (some config) (some key) = elim (find_entry config.values key) [
  | none ↦ none
  | some e ↦ e.value
]

-- A new node is linked in front, once its key and its value are copied.
unfoldable pub add_entry : Allocs → List DictEntry → CString → Option CString → List DictEntry
add_entry a es key v = if not a.entry_ok then es else if not a.key_ok then es else elim v [
  | none ↦ record { key = key; value = none } ∷ es
  | some s ↦ if a.value_ok then record { key = key; value = some s } ∷ es else es
]

-- An entry that is there keeps its old value if the copy of the new one fails.
unfoldable pub change_entry : Allocs → List DictEntry → CString → Option CString → List DictEntry
change_entry a es key none = write_entry es key none
change_entry a es key (some s) = if a.value_ok then write_entry es key (some s) else es

unfoldable pub set_values : Allocs → List DictEntry → CString → Option CString → List DictEntry
unfolding add_entry change_entry
set_values a es key v = elim (find_entry es key) [
  | none ↦ add_entry a es key v
  | some e ↦ change_entry a es key v
]

-- `daq_config_set_value`.
unfoldable pub daq_config_set_value :
    Allocs → Option Config → Option CString → Option CString → Option Config
daq_config_set_value a none key v = none
daq_config_set_value a (some config) none v = some config
daq_config_set_value a (some config) (some key) v =
    some (record config { values = set_values a config.values key v })

-- `daq_config_clear_value`.
unfoldable pub daq_config_clear_value : Option Config → Option CString → Option Config
daq_config_clear_value none key = none
daq_config_clear_value (some config) none = some config
daq_config_clear_value (some config) (some key) =
    some (record config { values = unlink_entry config.values key })

-- The loop of `daq_config_clear_values`, which frees the first node until none is left.
unfoldable pub free_entries : List DictEntry → List DictEntry
free_entries [] = []
free_entries (e ∷ es) = free_entries es

-- `daq_config_clear_values`.
unfoldable pub daq_config_clear_values : Option Config → Option Config
daq_config_clear_values none = none
daq_config_clear_values (some config) = some (record config { values = free_entries config.values })
