-- ===== src/Afpacket/Circle.antt =====
-- os-daq-modules/daq_afpacket.c: the entries that `set_up_ring` makes are a circle over all frames.
use libdaq.Prelude.{
  ℕ, zero, suc, ◌+◌, ◌-◌, ◌*◌, ◌/◌, ◌^◌, ◌≤◌, ◌<◌, List, some, true, get_elem?, set, length,
  replicate, ◌==◌, if◌then◌else◌, length-replicate, ◌≡◌, refl, sym, ◌∙◌, arith,
}
use native.Mathlib.Nat.{mul-le-mul_right, div-mul-le_self}
use libdaq.Common.{daq_success}
use libdaq.Afpacket.Bounds.{positive_lem}
use libdaq.Afpacket.Layout.{TpacketReq, u32}
use libdaq.Afpacket.Ring.{
  Entry, Filled, empty_entry, fill_frames, fill_blocks, close_ring, set_up_ring,
}
use libdaq.Afpacket.Frames.{
  plus_zero, zero_plus, plus_suc, lt→le, lt→suc-le, suc_times, get_elem-lt, closed_entry, Block,
  fill_frames_lem,
}

module _ (layout : TpacketReq) where
  -- The number of frames of a block.
  abbrev pub per_block : ℕ
  per_block = layout.block_size / layout.frame_size

  -- The i-th frame of block b, before the circle is closed.
  abbrev placed : ℕ → ℕ → Entry
  placed b i = record {
    next = some (suc (b * per_block + i));
    raw = some (b * layout.block_size + i * layout.frame_size);
  }

  -- An entry of the circle: the last one points back to the first.
  abbrev pub in_circle : ℕ → ℕ → Entry
  in_circle b i = record {
    next = some (if suc (b * per_block + i) == layout.frame_nr then 0 else suc (b * per_block + i));
    raw = some (b * layout.block_size + i * layout.frame_size);
  }

  -- `left` blocks from `block` on are filled.
  record Blocks (left block : ℕ) (f f' : Filled) : Type 0 where
    length : length f'.entries ≡ length f.entries
    before : (j : ℕ) → j < f.idx → get_elem? f'.entries j ≡ get_elem? f.entries j
    inside :
        (b i : ℕ)
        → b < left
        → i < per_block
        → get_elem? f'.entries ((block + b) * per_block + i) ≡ some (placed (block + b) i)

  module _ (some_frame : 0 < layout.frame_size)
      (frames : layout.frame_nr ≡ layout.block_nr * per_block)
      (mapped : layout.block_nr * layout.block_size < 2 ^ 32) where
    offset_exact :
        (b : ℕ) → b < layout.block_nr → u32 (b * layout.block_size) ≡ b * layout.block_size
    offset_exact b h =
        omega (arith, mapped, mul-le-mul_right layout.block_size (lt→le b layout.block_nr h))

    frame_end :
        (i : ℕ) → i < per_block → i * layout.frame_size + layout.frame_size ≤ layout.block_size
    frame_end i h = omega (
      arith,
      mul-le-mul_right layout.frame_size (lt→suc-le i per_block h),
      div-mul-le_self layout.block_size layout.frame_size,
      suc_times i layout.frame_size,
    )

    block_end :
        (b : ℕ)
        → b < layout.block_nr
        → b * layout.block_size + layout.block_size ≤ layout.block_nr * layout.block_size
    block_end b h = omega (
      arith,
      mul-le-mul_right layout.block_size (lt→suc-le b layout.block_nr h),
      suc_times b layout.block_size,
    )

    frame_exact :
        (block i : ℕ)
        → block < layout.block_nr
        → i < per_block
        → u32 (i * layout.frame_size) ≡ i * layout.frame_size
    frame_exact block i here h = omega (arith, mapped, block_end block here, frame_end i h)

    room_lem :
        (block : ℕ) (f : Filled)
        → block < layout.block_nr
        → f.idx ≡ block * per_block
        → f.idx + per_block ≤ layout.frame_nr
    room_lem block f here at_block = omega (
      arith,
      at_block,
      frames,
      mul-le-mul_right per_block (lt→suc-le block layout.block_nr here),
      suc_times block per_block,
    )

    next_block :
        (block : ℕ) (f f1 : Filled)
        → f.idx ≡ block * per_block
        → f1.idx ≡ f.idx + per_block
        → f1.idx ≡ suc block * per_block
    next_block block f f1 at_block e = omega (arith, at_block, e, suc_times block per_block)

    -- A frame of the first block, where the inner loop put it.
    first_placed :
        (block i : ℕ) (f f1 : Filled)
        → block < layout.block_nr
        → f.idx ≡ block * per_block
        → Block layout per_block 0 (u32 (block * layout.block_size)) f f1
        → i < per_block
        → get_elem? f1.entries (block * per_block + i) ≡ some (placed block i)
    first_placed block i f f1 here at_block one h =
        rw (sym at_block, sym (offset_exact block here), sym (frame_exact block i here h))
          (rw (zero_plus i) at (one.inside i h))

    later_inside :
        (left block : ℕ) (f f1 f' : Filled)
        → block < layout.block_nr
        → f.idx ≡ block * per_block
        → Block layout per_block 0 (u32 (block * layout.block_size)) f f1
        → Blocks left (suc block) f1 f'
        → (b i : ℕ) → b < suc left
        → i < per_block
        → get_elem? f'.entries ((block + b) * per_block + i) ≡ some (placed (block + b) i)
    later_inside left block f f1 f' here at_block one rest zero i h h' = rw (plus_zero block) (
        rest.before (block * per_block + i) (omega (arith, h', at_block, one.idx))
        ∙ first_placed block i f f1 here at_block one h')
    later_inside left block f f1 f' here at_block one rest (suc b) i h h' =
        rw (plus_suc block b) (rest.inside b i (omega (arith, h)) h')

    fill_blocks_lem :
        (left block : ℕ) (f : Filled)
        → block + left ≡ layout.block_nr
        → f.idx ≡ block * per_block
        → length f.entries ≡ layout.frame_nr
        → Blocks left block f (fill_blocks layout left block f)
    unfolding fill_blocks
    fill_blocks_lem zero block f all at_block long = record {
      length = refl;
      before = λ j h. refl;
      inside = λ b i h h'. absurd (omega (arith, h));
    }
    fill_blocks_lem (suc left) block f all at_block long =
        let offset = u32 (block * layout.block_size) in
        let here : block < layout.block_nr = omega (arith, all) in
        let f1 = fill_frames layout per_block 0 offset f in
        let one : Block layout per_block 0 offset f f1 =
          fill_frames_lem layout per_block 0 offset f long (room_lem block f here at_block) in
        let rest =
          fill_blocks_lem left (suc block) f1 (omega (arith, all))
            (next_block block f f1 at_block one.idx) (one.length ∙ long) in
        record {
          length = rest.length ∙ one.length;
          before = λ j h. rest.before j (omega (arith, h, one.idx)) ∙ one.before j h;
          inside = λ b i h h'.
              later_inside left block f f1 (fill_blocks layout left (suc block) f1) here at_block
                one rest b i h h';
        }

    index_lt : (b i : ℕ) → b < layout.block_nr → i < per_block → b * per_block + i < layout.frame_nr
    index_lt b i h h' = omega (
      arith,
      h',
      frames,
      mul-le-mul_right per_block (lt→suc-le b layout.block_nr h),
      suc_times b per_block,
    )

    abbrev filled : List Entry
    filled =
        (fill_blocks layout layout.block_nr 0
          (record { idx = 0; entries = replicate layout.frame_nr empty_entry })).entries

    close_filled :
        (e : Entry)
        → 0 < layout.frame_nr
        → get_elem? filled (layout.frame_nr - 1) ≡ some e
        → close_ring layout filled
          ≡ some (set filled (layout.frame_nr - 1) (record { next = some 0; raw = e.raw }))
    unfolding close_ring
    close_filled e some_entry at_last = rw (positive_lem layout.frame_nr some_entry, at_last) refl

    set_up_ring_closed :
        (entries : List Entry)
        → close_ring layout filled ≡ some entries
        → set_up_ring layout true ≡ some (daq_success, entries)
    unfolding set_up_ring
    set_up_ring_closed entries closed = rw (set_up_ring, closed) refl

    -- If the frame size is positive, the frames fill the blocks, there is a frame, and the blocks take less
    -- than 2^32 bytes, `set_up_ring` succeeds once it has memory. The entry of the i-th frame of block b
    -- points at that frame and to the next entry, the last one to the first, and every frame lies
    -- inside its block and so inside the mapped ring.
    pub set_up_ring_lem :
        0 < layout.frame_nr
        → (entries : List Entry) × (set_up_ring layout true ≡ some (daq_success, entries))
          × ((b i : ℕ)
              → b < layout.block_nr
              → i < per_block
              → (get_elem? entries (b * per_block + i) ≡ some (in_circle b i))
                × (i * layout.frame_size + layout.frame_size ≤ layout.block_size)
                × (b * layout.block_size + layout.block_size ≤ layout.block_nr * layout.block_size))
    set_up_ring_lem some_entry =
        let all =
          fill_blocks_lem layout.block_nr 0
            (record { idx = 0; entries = replicate layout.frame_nr empty_entry }) (omega arith)
            (omega arith) (length-replicate layout.frame_nr empty_entry) in
        let long : length filled ≡ layout.frame_nr =
          all.length ∙ length-replicate layout.frame_nr empty_entry in
        let (e, at_last) =
          get_elem-lt filled (layout.frame_nr - 1) (omega (arith, long, some_entry)) in
        (
          set filled (layout.frame_nr - 1) (record { next = some 0; raw = e.raw }),
          set_up_ring_closed _ (close_filled e some_entry at_last),
          λ b i h h'. (
            closed_entry filled (b * per_block + i) layout.frame_nr e (placed b i) long
                (index_lt b i h h') refl at_last (rw (zero_plus b) at (all.inside b i h h')),
            frame_end i h',
            block_end b h,
          ),
        )
