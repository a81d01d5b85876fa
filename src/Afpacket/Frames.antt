-- ===== src/Afpacket/Frames.antt =====
-- os-daq-modules/daq_afpacket.c: lists of entries, and the inner loop of `set_up_ring`.
use libdaq.Prelude.{
  ℕ, zero, suc, ◌+◌, ◌-◌, ◌*◌, ◌≤◌, ◌<◌, List, [], ◌∷◌, Option, none, some, get_elem?, set, length,
  lt→ltb, ◌==◌, if◌then◌else◌, length-set, ◌≡◌, inl, inr, refl, sym, ap, ◌∙◌, arith, Bool-cases,
}
use libdaq.Afpacket.Layout.{TpacketReq, u32}
use libdaq.Afpacket.Ring.{Entry, Filled, fill_entry, fill_frames}

module _ {ℓ} {A : Type ℓ} where
  pub get_elem-set_same :
      (xs : List A) (i : ℕ) (v : A) → i < length xs → get_elem? (set xs i v) i ≡ some v
  get_elem-set_same [] i v h = absurd (omega (arith, h))
  get_elem-set_same (x ∷ xs) zero v h = refl
  get_elem-set_same (x ∷ xs) (suc i) v h = get_elem-set_same xs i v (omega (arith, h))

  get_elem-set_other :
      (xs : List A) (i j : ℕ) (v : A) → (i ≡ j → ⊥) → get_elem? (set xs i v) j ≡ get_elem? xs j
  get_elem-set_other [] i j v h = refl
  get_elem-set_other (x ∷ xs) zero zero v h = absurd (h refl)
  get_elem-set_other (x ∷ xs) zero (suc j) v h = refl
  get_elem-set_other (x ∷ xs) (suc i) zero v h = refl
  get_elem-set_other (x ∷ xs) (suc i) (suc j) v h = get_elem-set_other xs i j v (λ e. h (ap suc e))

pub plus_zero : (n : ℕ) → n + 0 ≡ n
plus_zero n = omega arith

pub zero_plus : (n : ℕ) → 0 + n ≡ n
zero_plus n = omega arith

pub plus_suc : (n i : ℕ) → n + suc i ≡ suc n + i
plus_suc n i = omega arith

pub lt→le : (a b : ℕ) → a < b → a ≤ b
lt→le a b h = omega (arith, h)

pub lt→suc-le : (a b : ℕ) → a < b → suc a ≤ b
lt→suc-le a b h = omega (arith, h)

pub suc_times : (a n : ℕ) → suc a * n ≡ a * n + n
suc_times a n = grind arith

pub get_elem-lt {ℓ} :
    {A : Type ℓ} (xs : List A) (i : ℕ) → i < length xs → (a : A) × (get_elem? xs i ≡ some a)
get_elem-lt [] i h = absurd (omega (arith, h))
get_elem-lt (x ∷ xs) zero h = (x, refl)
get_elem-lt (x ∷ xs) (suc i) h = get_elem-lt xs i (omega (arith, h))

abbrev raw_or : Option Entry → Option ℕ
raw_or none = none
raw_or (some e) = e.raw

-- Closing the circle at its last entry.
pub closed_entry :
    (es : List Entry) (n nr : ℕ) (e p : Entry)
    → length es ≡ nr
    → n < nr
    → p.next ≡ some (suc n)
    → get_elem? es (nr - 1) ≡ some e
    → get_elem? es n ≡ some p
    → get_elem? (set es (nr - 1) (record { next = some 0; raw = e.raw })) n
      ≡ some (record { next = some (if suc n == nr then 0 else suc n); raw = p.raw })
closed_entry es n nr e p long h next at_last at_n = elim (Bool-cases (suc n == nr)) [
  | inl last ↦
      let n_last : nr - 1 ≡ n = ground (arith, last) in
      rw (last, n_last)
        (get_elem-set_same es n _ (omega (arith, long, h))
          ∙ ap (λ raw. some (record { next = some 0; raw = raw }))
              (ap raw_or (sym (rw n_last at at_last) ∙ at_n)))
  | inr other ↦ rw other (
      get_elem-set_other es (nr - 1) n _ (λ same. ground (arith, other, h, same))
      ∙ (at_n ∙ ap (λ next. some (record { next = next; raw = p.raw })) next))
]

module _ (layout : TpacketReq) where
  -- The frames of a block, from `frame` on: `left` entries from `idx` on, and no other.
  pub record Block (left frame offset : ℕ) (f f' : Filled) : Type 0 where
    pub idx : f'.idx ≡ f.idx + left
    pub length : length f'.entries ≡ length f.entries
    pub before : (j : ℕ) → j < f.idx → get_elem? f'.entries j ≡ get_elem? f.entries j
    pub inside :
        (i : ℕ)
        → i < left
        → get_elem? f'.entries (f.idx + i)
          ≡ some (record {
            next = some (suc (f.idx + i));
            raw = some (offset + u32 ((frame + i) * layout.frame_size));
          })

  first_inside :
      (left frame offset : ℕ) (f f' : Filled)
      → length f.entries ≡ layout.frame_nr
      → f.idx < layout.frame_nr
      → Block left (suc frame) offset (fill_entry (offset + u32 (frame * layout.frame_size)) f) f'
      → (i : ℕ) → i < suc left
      → get_elem? f'.entries (f.idx + i)
        ≡ some (record {
          next = some (suc (f.idx + i));
          raw = some (offset + u32 ((frame + i) * layout.frame_size));
        })
  first_inside left frame offset f f' long room rest zero h =
      rw (plus_zero f.idx, plus_zero frame)
        (rest.before f.idx (omega arith)
          ∙ get_elem-set_same f.entries f.idx _ (omega (arith, long, room)))
  first_inside left frame offset f f' long room rest (suc i) h =
      rw (plus_suc f.idx i, plus_suc frame i) (rest.inside i (omega (arith, h)))

  pub fill_frames_lem :
      (left frame offset : ℕ) (f : Filled)
      → length f.entries ≡ layout.frame_nr
      → f.idx + left ≤ layout.frame_nr
      → Block left frame offset f (fill_frames layout left frame offset f)
  unfolding fill_frames
  fill_frames_lem zero frame offset f long room = record {
    idx = omega arith;
    length = refl;
    before = λ j h. refl;
    inside = λ i h. absurd (omega (arith, h));
  }
  fill_frames_lem (suc left) frame offset f long room =
      let f1 = fill_entry (offset + u32 (frame * layout.frame_size)) f in
      let rest =
        fill_frames_lem left (suc frame) offset f1 (length-set f.entries f.idx _ ∙ long)
          (omega (arith, room)) in
      rw (lt→ltb f.idx layout.frame_nr (omega (arith, room))) (record {
        idx = omega (arith, rest.idx);
        length = rest.length ∙ length-set f.entries f.idx _;
        before = λ j h.
            rest.before j (omega (arith, h))
            ∙ get_elem-set_other f.entries f.idx j _ (λ e. omega (arith, h, e));
        inside = first_inside left frame offset f _ long (omega (arith, room)) rest;
      })
