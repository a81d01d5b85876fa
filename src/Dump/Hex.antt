-- ===== src/Dump/Hex.antt =====
-- os-daq-modules/daq_dump.c: what `hexdump` prints can be read back.
use libdaq.Prelude.{
  ℕ, zero, suc, ◌+◌, ◌*◌, ◌/◌, ◌%◌, ◌-◌, ◌≤◌, ltb, ◌<◌, CString, List, [], ◌∷◌, ◌++◌, take, Option,
  none, some, Bool, true, false, ◌||◌, ◌==◌, if◌then◌else◌, All, ◌≡◌, refl, ap, ◌∙◌, arith, inl,
  inr, Bool-cases,
}
use mathlib.Core.List.{append_assoc}
use native.Mathlib.Nat.{div-add-mod'}
use libdaq.Dump.Text.{digit, hex2, separator, hexdump_loop, hexdump, or_empty}

-- The digit that a character stands for.
unfoldable undigit : ℕ → ℕ → ℕ
undigit letters c = if ltb c 58 then c - 48 else c - letters

undigit-digit : (letters d : ℕ) → 48 ≤ letters → undigit letters (digit letters d) ≡ d
unfolding undigit
undigit-digit letters d h = ground (arith, h)

-- Spaces and ends of line.
abbrev pub is_blank : ℕ → Bool
is_blank c = (c == b' ') || (c == b'\n')

-- One character: the digit that waits for its second one, and the byte that is complete.
unfoldable pub read_char : Option ℕ → ℕ → Option ℕ × List ℕ
unfolding undigit
read_char none c = (some (undigit 87 c), [])
read_char (some high) c = (none, (high * 16 + undigit 87 c) ∷ [])

-- The bytes that pairs of hexadecimal digits stand for; blanks do not count.
unfoldable pub read_hex : Option ℕ → CString → List ℕ
unfolding read_char
read_hex st [] = []
read_hex st (c ∷ s) =
    let next = if is_blank c then (st, []) else read_char st c in next.1 ++ read_hex next.0 s

abbrev pub Blank : CString → Type 0
Blank s = All (λ c. is_blank c ≡ true) s

skip_lem : (st : Option ℕ) (b s : CString) → Blank b → read_hex st (b ++ s) ≡ read_hex st s
unfolding read_hex
skip_lem st [] s h = refl
skip_lem st (c ∷ b) s (h, h') = rw h (skip_lem st b s h')

read_end : (s : CString) → Blank s → read_hex none s ≡ []
unfolding read_hex
read_end [] h = refl
read_end (c ∷ s) (h, h') = rw h (read_end s h')

separator-Blank : (prefix : CString) (i : ℕ) → Blank prefix → Blank (separator prefix i)
unfolding separator
separator-Blank prefix i h = elim (Bool-cases (i % 16 == 0)) [
  | inl e ↦ rw e (refl, h)
  | inr e ↦ elim (Bool-cases (i % 2 == 0)) [
    | inl e' ↦ rw (e, e') (refl, tt)
    | inr e' ↦ rw (e, e') tt
  ]
]

digit_visible : (d : ℕ) → is_blank (digit 87 d) ≡ false
digit_visible d = ground arith

read_hex2 : (b : ℕ) (s : CString) → b < 256 → read_hex none (hex2 b ++ s) ≡ b ∷ read_hex none s
unfolding read_hex read_char
read_hex2 b s h =
    rw (digit_visible (b / 16), digit_visible (b % 16))
      (ap (λ n. n ∷ read_hex none s)
        (rw (undigit-digit 87 (b / 16) (omega arith), undigit-digit 87 (b % 16) (omega arith))
          (div-add-mod' b 16)))

hexdump_loop_lem :
    (len i : ℕ) (bytes : List ℕ) (prefix s : CString)
    → Blank prefix
    → Blank s
    → All (λ b. b < 256) bytes
    → read_hex none (hexdump_loop len i bytes prefix ++ s) ≡ take len bytes
unfolding hexdump_loop
hexdump_loop_lem zero i bytes prefix s blank end small = read_end s end
hexdump_loop_lem (suc len) i [] prefix s blank end small = read_end s end
hexdump_loop_lem (suc len) i (b ∷ bytes) prefix s blank end (small, small') =
    let rest = hexdump_loop len (suc i) bytes prefix in
    ap (read_hex none) (append_assoc (separator prefix i) (hex2 b ++ rest) s)
    ∙ (skip_lem none (separator prefix i) (hex2 b ++ (rest ++ s)) (separator-Blank prefix i blank)
        ∙ (read_hex2 b (rest ++ s) small
            ∙ ap (λ bs. b ∷ bs) (hexdump_loop_lem len (suc i) bytes prefix s blank end small')))

-- If the prefix is blank and the data are bytes, reading the hexadecimal digits of what `hexdump`
-- prints gives back the first `len` bytes.
pub read-hexdump :
    (bytes : List ℕ) (len : ℕ) (prefix : Option CString)
    → Blank (or_empty prefix)
    → All (λ b. b < 256) bytes
    → read_hex none (hexdump bytes len prefix) ≡ take len bytes
unfolding hexdump
read-hexdump bytes len prefix blank small =
    hexdump_loop_lem len 0 bytes (or_empty prefix) (b'\n' ∷ []) blank (refl, tt) small
