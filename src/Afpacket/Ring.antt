-- ===== src/Afpacket/Ring.antt =====
-- os-daq-modules/daq_afpacket.c: `set_up_ring`, the entries that stand for the frames of a mapped
-- ring. Pointers to entries are indices, and frames are offsets into the ring. The result none is a
-- write outside the entries.
use libdaq.Prelude.{
  ℕ, zero, suc, ◌+◌, ◌-◌, ◌*◌, ◌/◌, ℤ, List, [], Option, none, some, Bool, true, false, get_elem?,
  set, replicate, ltb, ◌==◌, ◌>>=◌, if◌then◌else◌,
}
use libdaq.Common.{daq_success, daq_error_nomem}
use libdaq.Afpacket.Layout.{TpacketReq, u32}

-- AFPacketEntry; calloc leaves both pointers NULL.
pub record Entry : Type 0 where
  pub next : Option ℕ
  pub raw : Option ℕ

abbrev pub empty_entry : Entry
empty_entry = record { next = none; raw = none }

-- What the rounds of the loops leave.
pub record Filled : Type 0 where
  pub idx : ℕ
  pub entries : List Entry

-- One round of the inner loop: the entry at `idx`.
abbrev pub fill_entry : ℕ → Filled → Filled
fill_entry raw f = record {
  idx = suc f.idx;
  entries = set f.entries f.idx (record { next = some (suc f.idx); raw = some raw });
}

module _ (layout : TpacketReq) where
  -- The inner loop over the frames of a block, with the rounds left.
  unfoldable pub fill_frames : ℕ → ℕ → ℕ → Filled → Filled
  fill_frames zero frame block_offset f = f
  fill_frames (suc left) frame block_offset f =
      let rest =
        fill_frames left (suc frame) block_offset
          (fill_entry (block_offset + u32 (frame * layout.frame_size)) f) in
      if ltb f.idx layout.frame_nr then rest else f

  -- The outer loop over the blocks.
  unfoldable pub fill_blocks : ℕ → ℕ → Filled → Filled
  unfolding fill_frames
  fill_blocks zero block f = f
  fill_blocks (suc left) block f =
      fill_blocks left (suc block)
        (fill_frames (layout.block_size / layout.frame_size) 0 (u32 (block * layout.block_size)) f)

  -- The last entry points back to the first.
  unfoldable pub close_ring : List Entry → Option (List Entry)
  close_ring entries =
      if layout.frame_nr == 0 then none else (elim (get_elem? entries (layout.frame_nr - 1)) [
        | none ↦ none
        | some e ↦ some (set entries (layout.frame_nr - 1) (record e { next = some 0 }))
      ])

  -- `set_up_ring`: a code and the entries; the cursor is entry 0.
  unfoldable pub set_up_ring : Bool → Option (ℤ × List Entry)
  unfolding fill_blocks close_ring
  set_up_ring false = some (daq_error_nomem, [])
  set_up_ring true = do
    entries ←
        close_ring
          (fill_blocks layout.block_nr 0
            (record { idx = 0; entries = replicate layout.frame_nr empty_entry })).entries
    some (daq_success, entries)
