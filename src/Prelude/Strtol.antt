-- ===== src/Prelude/Strtol.antt =====
-- `strtol` of <stdlib.h> in the C locale, with the conversion of its long to int.
use Prim.Native.Nat.{ℕ, zero, suc, ◌+◌, ◌-◌, ◌*◌, ◌%◌, ◌^◌}
use mathlib.Core.Bool.{Bool, true, false, not, ◌&&◌, ◌||◌}
use mathlib.Core.List.{[], ◌∷◌}
use libdaq.Prelude.Tests.{leb, ltb, ◌==◌, if◌then◌else◌}
use libdaq.Prelude.Int.{ℤ, pos, negsuc}
use libdaq.Prelude.Text.{CString}

abbrev pub is_space : ℕ → Bool
is_space c = c == 32 || (leb 9 c && leb c 13)

unfoldable pub skip_space : CString → CString
skip_space [] = []
skip_space (c ∷ s) = let rest = skip_space s in if is_space c then rest else c ∷ s

-- What a character counts for; 36 for one that is neither a digit nor a letter.
unfoldable pub digit_value : ℕ → ℕ
digit_value c =
    if leb 48 c && leb c 57
    then c - 48
    else if leb 65 c && leb c 90
    then c - 55
    else if leb 97 c && leb c 122
    then c - 87
    else 36

-- The digits at the start: their number, and what follows.
unfoldable pub read_digits : ℕ → ℕ → CString → ℕ × CString
unfolding digit_value
read_digits base n [] = (n, [])
read_digits base n (c ∷ s) =
    let rest = read_digits base (n * base + digit_value c) s in
    if ltb (digit_value c) base then rest else (n, c ∷ s)

abbrev pub starts_digit : ℕ → CString → Bool
starts_digit base [] = false
starts_digit base (c ∷ s) = ltb (digit_value c) base

abbrev pub starts_with : ℕ → CString → Bool
starts_with d [] = false
starts_with d (c ∷ s) = c == d

abbrev pub tail : CString → CString
tail [] = []
tail (c ∷ s) = s

-- The prefix of a hexadecimal number.
unfoldable pub is_hex : CString → Bool
is_hex s =
    starts_with b'0' s
    && ((starts_with b'x' (tail s) || starts_with b'X' (tail s)) && starts_digit 16 (tail (tail s)))

-- Base 0 is 16 behind 0x, 8 behind 0, and 10 otherwise.
unfoldable pub choose_base : ℕ → CString → ℕ × CString
unfolding is_hex
choose_base base s =
    if not (base == 0)
    then (base, s)
    else if is_hex s
    then (16, tail (tail s))
    else if starts_with b'0' s
    then (8, s)
    else (10, s)

-- A long stops at its limits.
abbrev pub signed_long : Bool → ℕ → ℤ
signed_long false n = if leb (2 ^ 63) n then pos (2 ^ 63 - 1) else pos n
signed_long true zero = pos 0
signed_long true (suc n) = if leb (2 ^ 63) n then negsuc (2 ^ 63 - 1) else negsuc n

-- The digits of a number whose sign is read; `s` is the whole text, where nothing is read from.
unfoldable pub strtol_digits : Bool → ℕ → CString → CString → ℤ × CString
unfolding read_digits
strtol_digits negative base digits s =
    let (n, rest) = read_digits base 0 digits in
    if starts_digit base digits then (signed_long negative n, rest) else (pos 0, s)

-- `strtol`: the number, and the text that its second argument points to.
unfoldable pub strtol : CString → ℕ → ℤ × CString
unfolding skip_space choose_base strtol_digits
strtol s base =
    let t = skip_space s in
    let negative = starts_with b'-' t in
    let digits = if negative || starts_with b'+' t then tail t else t in
    let (b, digits') = choose_base base digits in strtol_digits negative b digits' s

-- An unsigned long stops at its limit; a sign is taken modulo 2^64.
abbrev pub unsigned_long : Bool → ℕ → ℕ
unsigned_long negative n =
    if leb (2 ^ 64) n then 2 ^ 64 - 1 else if negative then (2 ^ 64 - n) % 2 ^ 64 else n

-- `strtoul`, its number.
unfoldable pub strtoul : CString → ℕ → ℕ
unfolding skip_space choose_base read_digits
strtoul s base =
    let t = skip_space s in
    let negative = starts_with b'-' t in
    let digits = if negative || starts_with b'+' t then tail t else t in
    let (b, digits') = choose_base base digits in unsigned_long negative (read_digits b 0 digits').0

-- A long as an int, modulo 2^32.
unfoldable pub to_int : ℤ → ℤ
to_int (pos n) = let m = n % 2 ^ 32 in if ltb m (2 ^ 31) then pos m else negsuc (2 ^ 32 - 1 - m)
to_int (negsuc n) = let m = n % 2 ^ 32 in if ltb m (2 ^ 31) then negsuc m else pos (2 ^ 32 - 1 - m)

-- `(int) strtol(s, NULL, 10)`.
unfoldable pub int_of : CString → ℤ
unfolding strtol to_int
int_of s = to_int (strtol s 10).0
