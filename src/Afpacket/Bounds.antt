-- ===== src/Afpacket/Bounds.antt =====
-- os-daq-modules/daq_afpacket.c: `calculate_layout` within the bounds of unsigned int.
use libdaq.Prelude.{
  ℕ, zero, suc, ◌*◌, ◌/◌, ◌^◌, ◌≤◌, ◌<◌, ℤ, none, some, false, ltb, ltb→lt, ltb→le, ◌==◌, ◌≡◌, ◌⊎◌,
  inl, inr, refl, arith, Bool-cases, ◌∙◌, ap, sym, lt→ltb,
}
use native.Mathlib.Nat.{
  mul_assoc, one-le-pow, div-mul-le_self, div-le_self, lt-div-mul-add, le-div_iff_mul-le, pow-succ',
  mul-le-mul_left, mul-le-mul_right,
}
use libdaq.Common.{daq_success}
use libdaq.Afpacket.Layout.{
  Kernel, TpacketReq, u32, frame_size_of, grow, fill_layout, calculate_layout,
}

double_eq : (b j : ℕ) → b * 2 * 2 ^ j ≡ b * 2 ^ suc j
double_eq b j = mul_assoc b 2 (2 ^ j) ∙ ap (λ n. b * n) (sym (pow-succ' 2 j))

double_le : (b fuel f : ℕ) → f ≤ b * 2 ^ suc fuel → f ≤ b * 2 * 2 ^ fuel
double_le b fuel f h = rw (double_eq b fuel) h

no_wrap : (b f : ℕ) → b < f → f ≤ 2 ^ 31 → u32 (b * 2) ≡ b * 2
no_wrap b f less small = omega (arith, less, small)

least_lem : (b f r : ℕ) → b < f → (r ≡ b * 2) ⊎ (r < 2 * f) → r < 2 * f
least_lem b f r less (inl e) = omega (arith, less, e)
least_lem b f r less (inr h) = h

-- The loop stops in time, with a size that is a power of two times the first one.
grow_lem :
    (fuel b f : ℕ)
    → f ≤ 2 ^ 31
    → f ≤ b * 2 ^ fuel
    → (r : ℕ) × (j : ℕ) × (grow (suc fuel) b f ≡ some r)
      × (f ≤ r)
      × (r ≡ b * 2 ^ j)
      × ((r ≡ b) ⊎ (r < 2 * f))
unfolding grow
grow_lem zero b f small enough = (b, 0, ground (arith, enough), omega arith, omega arith, inl refl)
grow_lem (suc fuel) b f small enough = elim (Bool-cases (ltb b f)) [
  | inl e ↦
      let less = ltb→lt b f e in
      let (r, j, run, fits, power, least) =
        grow_lem fuel (b * 2) f small (double_le b fuel f enough) in
      (
        r,
        suc j,
        rw (e, no_wrap b f less small) run,
        fits,
        power ∙ double_eq b j,
        inr (least_lem b f r less least),
      )
  | inr e ↦ (b, 0, rw e refl, ltb→le b f e, omega arith, inl refl)
]

-- A size of 0 stays.
grow_zero : (fuel f : ℕ) → 0 < f → grow fuel 0 f ≡ none
unfolding grow
grow_zero zero f h = refl
grow_zero (suc fuel) f h = ground (arith, h, grow_zero fuel f h)

wraps : (b : ℕ) → b * 2 ^ 1 ≡ 2 ^ 32 → u32 (b * 2) ≡ 0
wraps b e = omega (arith, e)

half_le : (b j : ℕ) → b * 2 ^ suc (suc j) ≡ 2 ^ 32 → b * 2 ≤ 2 ^ 31
half_le b j e = omega (
  arith,
  e,
  double_eq b (suc j),
  double_eq (b * 2) j,
  mul-le-mul_left (b * 2 * 2) (one-le-pow j 2 (omega arith)),
)

u32_half : (b j : ℕ) → b * 2 ^ suc (suc j) ≡ 2 ^ 32 → u32 (b * 2) ≡ b * 2
u32_half b j e = omega (arith, half_le b j e)

-- A size that reaches 2^32 in `j` rounds passes no frame beyond 2^31.
grow_forever : (fuel j b f : ℕ) → 2 ^ 31 < f → b * 2 ^ suc j ≡ 2 ^ 32 → grow fuel b f ≡ none
unfolding grow
grow_forever zero j b f h e = refl
grow_forever (suc fuel) zero b f h e =
    rw (lt→ltb b f (omega (arith, h, e)), wraps b e) (grow_zero fuel f (omega (arith, h)))
grow_forever (suc fuel) (suc j) b f h e =
    rw (lt→ltb b f (omega (arith, h, half_le b j e)), u32_half b j e)
      (grow_forever fuel j (b * 2) f h (double_eq b (suc j) ∙ e))

-- The blocks of a ring: whole frames in each, within the memory asked for.
pub record Fits (size : ℕ) (l : TpacketReq) : Type 0 where
  pub frame_inside : l.frame_size ≤ l.block_size
  pub frames : l.frame_nr ≡ l.block_nr * (l.block_size / l.frame_size)
  pub asked : l.frame_nr * l.frame_size ≤ size
  pub mapped : l.block_nr * l.block_size ≤ 2 * size

-- A block of at least one frame is shorter than twice its frames.
block_lt : (block_size f : ℕ) → 0 < f → f ≤ block_size → block_size ≤ 2 * (block_size / f * f)
block_lt block_size f some_frame fits =
    let below = lt-div-mul-add {a = block_size} some_frame in
    let one = (le-div_iff_mul-le {x = 1} {y = block_size} some_frame).1 (omega (arith, fits)) in
    omega (arith, below, mul-le-mul_right f one)

pub positive_lem : (n : ℕ) → 0 < n → (n == 0) ≡ false
positive_lem n h = ground (arith, h)

regroup : (b q f : ℕ) → b * (2 * (q * f)) ≡ 2 * (b * q * f)
regroup b q f = grind arith

fill_layout_lem :
    (size : ℕ) (l : TpacketReq)
    → size < 2 ^ 32
    → 0 < l.frame_size
    → l.frame_size ≤ l.block_size
    → (l' : TpacketReq) × (fill_layout size l ≡ some (daq_success, l'))
      × (l'.frame_size ≡ l.frame_size)
      × (l'.block_size ≡ l.block_size)
      × Fits size l'
unfolding fill_layout
fill_layout_lem size l small some_frame fits =
    let q = l.block_size / l.frame_size in
    let n = size / l.frame_size in
    let b = n / q in
    let one : 1 ≤ q =
      (le-div_iff_mul-le {x = 1} {y = l.block_size} some_frame).1 (omega (arith, fits)) in
    let inside : b * q ≤ n = div-mul-le_self n q in
    let kept : b * q * l.frame_size ≤ size =
      omega (arith, mul-le-mul_right l.frame_size inside, div-mul-le_self size l.frame_size) in
    let below : b * q < 2 ^ 32 = omega (arith, inside, div-le_self size l.frame_size, small) in
    let exact : u32 (b * q) ≡ b * q = omega (arith, below) in
    (
      record l { block_nr = b; frame_nr = u32 (b * q) },
      rw (positive_lem l.frame_size some_frame, positive_lem q one) refl,
      refl,
      refl,
      record {
        frame_inside = fits;
        frames = exact;
        asked = rw exact kept;
        mapped = omega (
          arith,
          kept,
          mul-le-mul_left b (block_lt l.block_size l.frame_size some_frame fits),
          regroup b q l.frame_size,
        );
      },
    )

-- If the frame size is positive and at most 2^31 and the first block size fits an unsigned int, then
-- `calculate_layout` ends with DAQ_SUCCESS for any buffer size below 2^32: the blocks are a power of two times the pages
-- asked for and hold whole frames, the frames fill every block, they take no more than the
-- buffer size, and the mapped blocks take at most twice that.
pub calculate_layout_lem :
    (k : Kernel) (size : ℕ) (snaplen : ℤ) (l : TpacketReq) (tp_hdrlen order : ℕ)
    → size < 2 ^ 32
    → 0 < frame_size_of k tp_hdrlen snaplen
    → frame_size_of k tp_hdrlen snaplen ≤ 2 ^ 31
    → 0 < k.page_size * 2 ^ order
    → k.page_size * 2 ^ order < 2 ^ 32
    → (l' : TpacketReq) × (j : ℕ) × (calculate_layout k size snaplen l tp_hdrlen order
        ≡ some (daq_success, l'))
      × (l'.frame_size ≡ frame_size_of k tp_hdrlen snaplen)
      × (l'.block_size ≡ k.page_size * 2 ^ order * 2 ^ j)
      × Fits size l'
unfolding calculate_layout
calculate_layout_lem k size snaplen l tp_hdrlen order small some_frame frame_small some_page
      page_small =
    let f = frame_size_of k tp_hdrlen snaplen in
    let b = k.page_size * 2 ^ order in
    let (r, j, run, fits, power, least) =
      grow_lem 32 b f frame_small
        (omega (arith, frame_small, mul-le-mul_right (2 ^ 32) some_page)) in
    let (l', filled, same_frame, same_block, good) =
      fill_layout_lem size (record l { frame_size = f; block_size = r }) small some_frame fits in
    let exact : u32 b ≡ b = omega (arith, page_small) in
    (l', j, rw (exact, run) filled, same_frame, same_block ∙ power, good)

b_le : (b j : ℕ) → b * 2 ^ suc j ≡ 2 ^ 32 → b ≤ 2 ^ 31
b_le b j e = omega (arith, e, double_eq b j, mul-le-mul_left (b * 2) (one-le-pow j 2 (omega arith)))

-- If the frame size is above 2^31 and the first block size is a power of two below 2^32, the loop of
-- `calculate_layout` does not end after any number of rounds.
pub layout_hangs :
    (k : Kernel) (snaplen : ℤ) (tp_hdrlen order j : ℕ)
    → 2 ^ 31 < frame_size_of k tp_hdrlen snaplen
    → k.page_size * 2 ^ order * 2 ^ suc j ≡ 2 ^ 32
    → (fuel : ℕ)
    → grow fuel (u32 (k.page_size * 2 ^ order)) (frame_size_of k tp_hdrlen snaplen) ≡ none
layout_hangs k snaplen tp_hdrlen order j large power fuel =
    let b = k.page_size * 2 ^ order in
    let exact : u32 b ≡ b = omega (arith, b_le b j power) in
    rw exact (grow_forever fuel j b (frame_size_of k tp_hdrlen snaplen) large power)
