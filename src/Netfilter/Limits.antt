-- ===== src/Netfilter/Limits.antt =====
-- How many packets an acquire of os-daq-modules/daq_nfq.c or os-daq-modules/daq_ipq.c takes: a number for
-- a positive count, else any number.
use libdaq.Prelude.{
  ℕ, zero, suc, ◌+◌, ℤ, pos, negsuc, Option, none, some, Bool, true, false, lt→ltb, le→ltb, ◌≡◌,
  refl, arith,
}
use libdaq.Ipfw.Acquire.{goes_on}

-- How many packets may still come; none is no limit.
abbrev pub has_more : Option ℕ → Bool
has_more none = true
has_more (some zero) = false
has_more (some (suc k)) = true

abbrev pub one_less : Option ℕ → Option ℕ
one_less none = none
one_less (some zero) = some 0
one_less (some (suc k)) = some k

-- The limit that a count stands for.
abbrev pub limit_of : ℤ → Option ℕ
limit_of (pos zero) = none
limit_of (pos (suc n)) = some (suc n)
limit_of (negsuc n) = none

-- What the code makes of a count, and what the description makes of it.
abbrev pub Left : ℤ → ℕ → Option ℕ → Type 0
Left (negsuc m) n none = Unit
Left (negsuc m) n (some k) = ⊥
Left (pos m) n none = ⊥
Left (pos m) n (some k) = m ≡ n + k

pub goes_on_lem : (c : ℤ) (n : ℕ) (left : Option ℕ) → Left c n left → goes_on c n ≡ has_more left
unfolding goes_on
goes_on_lem (negsuc m) n none h = refl
goes_on_lem (negsuc m) n (some k) h = absurd h
goes_on_lem (pos m) n none h = absurd h
goes_on_lem (pos m) n (some zero) h = le→ltb n m (omega (arith, h))
goes_on_lem (pos m) n (some (suc k)) h = lt→ltb n m (omega (arith, h))

pub Left-one_less :
    (c : ℤ) (n : ℕ) (left : Option ℕ)
    → Left c n left
    → has_more left ≡ true
    → Left c (suc n) (one_less left)
Left-one_less (negsuc m) n none h more = tt
Left-one_less (negsuc m) n (some k) h more = absurd h
Left-one_less (pos m) n none h more = absurd h
Left-one_less (pos m) n (some zero) h more = absurd (cc)
Left-one_less (pos m) n (some (suc k)) h more = omega (arith, h)
