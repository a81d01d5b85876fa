-- ===== src/Dump/Text.antt =====
-- os-daq-modules/daq_dump.c: what the module prints. The numbers and the conversions of fprintf are
-- bytes; `hexdump` is the source's own.
use libdaq.Prelude.{
  ℕ, zero, suc, ◌+◌, ◌/◌, ◌%◌, CString, codes, List, [], ◌∷◌, ◌++◌, Option, none, some, ltb, ◌==◌,
  if◌then◌else◌,
}

-- A decimal digit, or a hexadecimal one in lower case (from 87) or upper case (from 55).
abbrev pub digit : ℕ → ℕ → ℕ
digit letters d = if ltb d 10 then b'0' + d else letters + d

-- The digits of a number in a base, with one round of fuel for each digit.
unfoldable pub digits_of : ℕ → ℕ → ℕ → ℕ → CString → CString
digits_of zero letters base n acc = acc
digits_of (suc fuel) letters base n acc =
    let acc' = digit letters (n % base) ∷ acc in
    let rest = digits_of fuel letters base (n / base) acc' in if n / base == 0 then acc' else rest

-- What fprintf of the C library prints for `%lu`, `%u` and `%hu`: a number has at most as many digits as one more than its value.
unfoldable pub dec : ℕ → CString
unfolding digits_of
dec n = digits_of (suc n) 87 10 n []

-- The same for `%X`.
unfoldable pub upper_hex : ℕ → CString
unfolding digits_of
upper_hex n = digits_of (suc n) 55 16 n []

-- `%02x` of a byte.
abbrev pub hex2 : ℕ → CString
hex2 b = digit 87 (b / 16) ∷ digit 87 (b % 16) ∷ []

-- What stands before the i-th byte.
unfoldable pub separator : CString → ℕ → CString
separator prefix i = if i % 16 == 0 then b'\n' ∷ prefix else if i % 2 == 0 then codes " " else []

-- The loop of `hexdump`; `len` counts the rounds left, and the caller's buffer holds that many bytes.
unfoldable pub hexdump_loop : ℕ → ℕ → List ℕ → CString → CString
hexdump_loop zero i bytes prefix = []
hexdump_loop (suc len) i [] prefix = []
hexdump_loop (suc len) i (b ∷ bytes) prefix =
    separator prefix i ++ (hex2 b ++ hexdump_loop len (suc i) bytes prefix)

abbrev pub or_empty : Option CString → CString
or_empty none = []
or_empty (some s) = s

-- What `hexdump` prints.
unfoldable pub hexdump : List ℕ → ℕ → Option CString → CString
hexdump bytes len prefix = hexdump_loop len 0 bytes (or_empty prefix) ++ (b'\n' ∷ [])
