-- ===== src/ModOps/Query.antt =====
-- api/daq_mod_ops.c: the functions that query an instance, swap its configuration or work on flows.
-- Results and faults are as in the parent.
use libdaq.Prelude.{
  ◌>>=◌, ℕ, ◌-◌, ◌%◌, ◌^◌, ℤ, pos, negsuc, CString, codes, List, [], Option, none, some,
}
use libdaq.Common.{
  PktHdr, Stats, daq_success, daq_error_nomod, daq_error_noctx, daq_error_inval, daq_error_notsup,
  state_unknown,
}
use libdaq.Module.{Module, FlowArg, DpKey, ChannelParams}
use libdaq.ModOps.{Reply, reply, refuse}

-- A code returned as a uint32_t.
abbrev pub to_u32 : ℤ → ℕ
to_u32 (pos n) = n % 2 ^ 32
to_u32 (negsuc n) = 2 ^ 32 - 1 - n % 2 ^ 32

module _ {C U : Type 0} where
  -- `daq_check_status`.
  unfoldable pub daq_check_status : Option (Module C U) → Option C → Option ℕ
  daq_check_status none h = some state_unknown
  daq_check_status (some m) none = some state_unknown
  daq_check_status (some m) (some c) = do f ← m.check_status; some (f c)

  -- `daq_get_stats`: also what it leaves in `*stats`.
  unfoldable pub daq_get_stats :
      Option (Module C U) → Option C → Option Stats → Option (ℤ × Option C × Option Stats)
  daq_get_stats none h stats = some (daq_error_nomod, h, stats)
  daq_get_stats (some m) none stats = some (daq_error_noctx, none, stats)
  daq_get_stats (some m) (some c) none = do
    set ← m.set_errbuf
    some (daq_error_inval, some (set c (codes "No place to put the statistics!")), none)
  daq_get_stats (some m) (some c) (some stats) = do
    f ← m.get_stats
    (let (c', stats', code) = f c stats in some (code, some c', some stats'))

  -- `daq_reset_stats`.
  unfoldable pub daq_reset_stats : Option (Module C U) → Option C → Option (Option C)
  daq_reset_stats none h = some h
  daq_reset_stats (some m) none = some none
  daq_reset_stats (some m) (some c) = do f ← m.reset_stats; some (some (f c))

  -- `daq_get_snaplen`.
  unfoldable pub daq_get_snaplen : Option (Module C U) → Option C → Option ℤ
  daq_get_snaplen none h = some daq_error_nomod
  daq_get_snaplen (some m) none = some daq_error_noctx
  daq_get_snaplen (some m) (some c) = do f ← m.get_snaplen; some (f c)

  -- `daq_get_capabilities`.
  unfoldable pub daq_get_capabilities : Option (Module C U) → Option C → Option ℕ
  daq_get_capabilities none h = some (to_u32 daq_error_nomod)
  daq_get_capabilities (some m) none = some (to_u32 daq_error_noctx)
  daq_get_capabilities (some m) (some c) = do f ← m.get_capabilities; some (f c)

  -- `daq_get_datalink_type`.
  unfoldable pub daq_get_datalink_type : Option (Module C U) → Option C → Option ℤ
  daq_get_datalink_type none h = some daq_error_nomod
  daq_get_datalink_type (some m) none = some daq_error_noctx
  daq_get_datalink_type (some m) (some c) = do f ← m.get_datalink_type; some (f c)

  -- `daq_get_error`; the inner `none` is NULL.
  unfoldable pub daq_get_error : Option (Module C U) → Option C → Option (Option CString)
  daq_get_error none h = some none
  daq_get_error (some m) none = some none
  daq_get_error (some m) (some c) = do f ← m.get_errbuf; some (some (f c))

  -- `daq_clear_error`.
  unfoldable pub daq_clear_error : Option (Module C U) → Option C → Option (Option C)
  daq_clear_error none h = some h
  daq_clear_error (some m) none = some none
  daq_clear_error (some m) (some c) = do f ← m.set_errbuf; some (some (f c []))

  -- `daq_get_device_index`.
  unfoldable pub daq_get_device_index : Option (Module C U) → Option C → Option CString → Reply C
  daq_get_device_index none h device = some (daq_error_nomod, h)
  daq_get_device_index (some m) none device = some (daq_error_noctx, none)
  daq_get_device_index (some m) (some c) none =
      refuse m c (codes "No device name to find the index of!") daq_error_inval
  daq_get_device_index (some m) (some c) (some device) = do
    f ← m.get_device_index
    some (f c device, some c)

  -- `daq_hup_prep`: also what it stores in `*new_config`, if anything.
  unfoldable pub daq_hup_prep : Option (Module C U) → Option C → Option (ℤ × Option C × Option ℕ)
  daq_hup_prep none h = some (daq_error_nomod, h, none)
  daq_hup_prep (some m) none = some (daq_error_noctx, none, none)
  daq_hup_prep (some m) (some c) = elim m.hup_prep [
    | none ↦ elim m.hup_apply [
      | none ↦ some (pos 1, some c, none)
      | some f ↦ some (daq_success, some c, none)
    ]
    | some f ↦ let (c', conf, code) = f c in some (code, some c', conf)
  ]

  -- `daq_hup_apply`: also what it stores in `*old_config`, if anything.
  unfoldable pub daq_hup_apply :
      Option (Module C U) → Option C → Option ℕ → Option (ℤ × Option C × Option ℕ)
  daq_hup_apply none h conf = some (daq_error_nomod, h, none)
  daq_hup_apply (some m) none conf = some (daq_error_noctx, none, none)
  daq_hup_apply (some m) (some c) conf = elim m.hup_apply [
    | none ↦ some (daq_success, some c, none)
    | some f ↦ let (c', old, code) = f c conf in some (code, some c', old)
  ]

  -- `daq_hup_post`.
  unfoldable pub daq_hup_post : Option (Module C U) → Option C → Option ℕ → Reply C
  daq_hup_post none h conf = some (daq_error_nomod, h)
  daq_hup_post (some m) none conf = some (daq_error_noctx, none)
  daq_hup_post (some m) (some c) conf = elim m.hup_post [
    | none ↦ some (daq_success, some c)
    | some f ↦ reply (f c conf)
  ]

  -- `daq_modify_flow`, which does not look at the handle.
  unfoldable pub daq_modify_flow : Option (Module C U) → Option C → PktHdr → FlowArg → Reply C
  daq_modify_flow none h hdr modify = some (daq_error_nomod, h)
  daq_modify_flow (some m) h hdr modify = elim m.modify_flow [
    | none ↦ some (daq_success, h)
    | some f ↦ let (h', code) = f h hdr modify in some (code, h')
  ]

  -- `daq_query_flow`, which does not look at the handle.
  unfoldable pub daq_query_flow : Option (Module C U) → Option C → PktHdr → FlowArg → Reply C
  daq_query_flow none h hdr query = some (daq_error_nomod, h)
  daq_query_flow (some m) h hdr query = elim m.query_flow [
    | none ↦ some (daq_error_notsup, h)
    | some f ↦ let (h', code) = f h hdr query in some (code, h')
  ]

  -- `daq_get_name`.
  unfoldable pub daq_get_name : Option (Module C U) → Option CString
  daq_get_name none = none
  daq_get_name (some m) = some m.name

  -- `daq_get_type`.
  unfoldable pub daq_get_type : Option (Module C U) → ℕ
  daq_get_type none = to_u32 daq_error_nomod
  daq_get_type (some m) = m.type

  -- `daq_dp_add_dc`.
  unfoldable pub daq_dp_add_dc :
      Option (Module C U) → Option C → PktHdr → DpKey → List ℕ → Option ChannelParams → Reply C
  daq_dp_add_dc none h hdr dp_key packet_data params = some (daq_error_nomod, h)
  daq_dp_add_dc (some m) none hdr dp_key packet_data params = some (daq_error_noctx, none)
  daq_dp_add_dc (some m) (some c) hdr dp_key packet_data params = elim m.dp_add_dc [
    | none ↦ some (daq_success, some c)
    | some f ↦ reply (f c hdr dp_key packet_data params)
  ]
