-- ===== src/ModOps/Calls.antt =====
-- The calls that an application makes with a handle, as data, and what they leave behind the handle.
use libdaq.Prelude.{◌>>=◌, ℕ, ℤ, CString, List, Option, some}
use libdaq.Common.{PktHdr, Stats}
use libdaq.Module.{Module, Callback, MetaCallback, FlowArg, DpKey, ChannelParams}
use libdaq.ModOps.{
  Reply, daq_set_filter, daq_start, daq_acquire, daq_acquire_with_meta, daq_inject, daq_breakloop,
  daq_stop, daq_shutdown,
}
use libdaq.ModOps.Query.{
  daq_check_status, daq_get_stats, daq_reset_stats, daq_get_snaplen, daq_get_capabilities,
  daq_get_datalink_type, daq_get_error, daq_clear_error, daq_get_device_index, daq_hup_prep,
  daq_hup_apply, daq_hup_post, daq_modify_flow, daq_query_flow, daq_dp_add_dc,
}

pub data Call (U : Type 0) : Type 0 where
  set_filter : Option CString → Call U
  start breakloop stop shutdown check_status reset_stats get_snaplen get_capabilities : Call U
  get_datalink_type get_error clear_error hup_prep : Call U
  acquire : ℤ → Option (Callback U) → U → Call U
  acquire_with_meta : ℤ → Option (Callback U) → Option (MetaCallback U) → U → Call U
  inject : Option PktHdr → Option (List ℕ) → ℕ → ℤ → Call U
  get_stats : Option Stats → Call U
  get_device_index : Option CString → Call U
  hup_apply hup_post : Option ℕ → Call U
  modify_flow query_flow : PktHdr → FlowArg → Call U
  dp_add_dc : PktHdr → DpKey → List ℕ → Option ChannelParams → Call U

abbrev pub left : {C : Type 0} → Reply C → Option (Option C)
left r = r >>= λ x. some x.1

abbrev pub left₃ : {A C : Type 0} → Option (ℤ × Option C × A) → Option (Option C)
left₃ r = r >>= λ x. some x.1

abbrev pub unchanged : {A C : Type 0} → Option C → Option A → Option (Option C)
unchanged h r = r >>= λ x. some h

module _ {C U : Type 0} where
  -- The context behind the handle after a call; the outer `none` is a call through a NULL pointer.
  unfoldable pub perform : Call U → Option (Module C U) → Option C → Option (Option C)
  perform (set_filter filter) m h = left (daq_set_filter m h filter)
  perform start m h = left (daq_start m h)
  perform breakloop m h = left (daq_breakloop m h)
  perform stop m h = left (daq_stop m h)
  perform shutdown m h = left (daq_shutdown m h)
  perform check_status m h = unchanged h (daq_check_status m h)
  perform reset_stats m h = daq_reset_stats m h
  perform get_snaplen m h = unchanged h (daq_get_snaplen m h)
  perform get_capabilities m h = unchanged h (daq_get_capabilities m h)
  perform get_datalink_type m h = unchanged h (daq_get_datalink_type m h)
  perform get_error m h = unchanged h (daq_get_error m h)
  perform clear_error m h = daq_clear_error m h
  perform hup_prep m h = left₃ (daq_hup_prep m h)
  perform (acquire cnt f user) m h = left₃ (daq_acquire m h cnt f user)
  perform (acquire_with_meta cnt f g user) m h = left₃ (daq_acquire_with_meta m h cnt f g user)
  perform (inject hdr packet_data len reverse) m h =
      left (daq_inject m h hdr packet_data len reverse)
  perform (get_stats stats) m h = left₃ (daq_get_stats m h stats)
  perform (get_device_index device) m h = left (daq_get_device_index m h device)
  perform (hup_apply conf) m h = left₃ (daq_hup_apply m h conf)
  perform (hup_post conf) m h = left (daq_hup_post m h conf)
  perform (modify_flow hdr arg) m h = left (daq_modify_flow m h hdr arg)
  perform (query_flow hdr arg) m h = left (daq_query_flow m h hdr arg)
  perform (dp_add_dc hdr key packet_data params) m h =
      left (daq_dp_add_dc m h hdr key packet_data params)
