-- ===== src/Config/Keys.antt =====
-- What the search, the write and the unlinking of the dictionary do, key by key.
use libdaq.Prelude.{
  CString, str_eq, str_eq_iff, List, [], ◌∷◌, Option, none, some, Bool-cases, inl, inr,
  if◌then◌else◌, ◌≡◌, refl, arith,
}
use libdaq.Common.{DictEntry}
use libdaq.Config.{find_entry, write_entry, unlink_entry}

-- What the dictionary has for a key: no entry, or an entry with its value, which may be NULL.
unfoldable pub slot : List DictEntry → CString → Option (Option CString)
slot [] q = none
slot (e ∷ es) q = if str_eq e.key q then some e.value else slot es q

-- No key stands in two entries.
abbrev pub IsUnique : List DictEntry → Type 0
IsUnique [] = Unit
IsUnique (e ∷ es) = (slot es e.key ≡ none) × IsUnique es

pub find_entry-none :
    (es : List DictEntry) (q : CString) → slot es q ≡ none → find_entry es q ≡ none
unfolding find_entry slot
find_entry-none [] q h = refl
find_entry-none (e ∷ es) q h = ground (arith, find_entry-none es q)

pub find_entry-some :
    (es : List DictEntry) (q : CString) (v : Option CString)
    → slot es q ≡ some v
    → (e : DictEntry) × (find_entry es q ≡ some e) × (e.value ≡ v)
unfolding find_entry slot
find_entry-some [] q v h = cc
find_entry-some (e ∷ es) q v h = elim (Bool-cases (str_eq e.key q)) [
  | inl here ↦ (e, rw here, ground arith)
  | inr there ↦ rw there (find_entry-some es q v (ground arith))
]

pub slot-write :
    (es : List DictEntry) (key q : CString) (v w : Option CString)
    → slot es key ≡ some w
    → slot (write_entry es key v) q ≡ (if str_eq key q then some v else slot es q)
unfolding slot write_entry
slot-write [] key q v w h = cc
slot-write (e ∷ es) key q v w h =
    ground
      (arith, str_eq_iff e.key key, str_eq_iff e.key q, str_eq_iff key q, slot-write es key q v w)

pub slot-unlink :
    (es : List DictEntry) (key q : CString)
    → IsUnique es
    → slot (unlink_entry es key) q ≡ (if str_eq key q then none else slot es q)
unfolding slot unlink_entry
slot-unlink [] key q u = ground arith
slot-unlink (e ∷ es) key q u =
    ground
      (arith, str_eq_iff e.key key, str_eq_iff e.key q, str_eq_iff key q, slot-unlink es key q u.1)

-- A write keeps the keys, and the unlinking removes one.
pub slot-write_none :
    (es : List DictEntry) (key q : CString) (v : Option CString)
    → slot es q ≡ none
    → slot (write_entry es key v) q ≡ none
unfolding slot write_entry
slot-write_none [] key q v h = refl
slot-write_none (e ∷ es) key q v h = ground (arith, slot-write_none es key q v)

pub slot-unlink_none :
    (es : List DictEntry) (key q : CString) → slot es q ≡ none → slot (unlink_entry es key) q ≡ none
unfolding slot unlink_entry
slot-unlink_none [] key q h = refl
slot-unlink_none (e ∷ es) key q h = ground (arith, slot-unlink_none es key q)

pub write-IsUnique :
    (es : List DictEntry) (key : CString) (v : Option CString)
    → IsUnique es
    → IsUnique (write_entry es key v)
unfolding write_entry
write-IsUnique [] key v u = tt
write-IsUnique (e ∷ es) key v u =
    ground (arith, slot-write_none es key e.key v, write-IsUnique es key v u.1)

pub unlink-IsUnique :
    (es : List DictEntry) (key : CString) → IsUnique es → IsUnique (unlink_entry es key)
unfolding unlink_entry
unlink-IsUnique [] key u = tt
unlink-IsUnique (e ∷ es) key u =
    ground (arith, slot-unlink_none es key e.key, unlink-IsUnique es key u.1)
