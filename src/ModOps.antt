-- ===== src/ModOps.antt =====
-- api/daq_mod_ops.c: the functions through which an application uses an instance of a module. A
-- module or a handle that is NULL is `none`; the outer `none` is a call through a NULL pointer. A
-- result holds the context after the call, which is `none` once the handle was NULL or is freed.
pub mod Query
pub mod Calls
pub mod Total
pub mod Contract
pub mod Lifecycle
pub mod History
mod Tests
use libdaq.Prelude.{
  ◌>>=◌, ℕ, ◌-◌, ◌+◌, ◌^◌, ℤ, pos, negsuc, CString, codes, take, List, [], ◌∷◌, ◌++◌, Option, none,
  some, Bool, true, false, not, ◌&&◌, ◌||◌, ◌==◌, if◌then◌else◌, bit_and,
}
use libdaq.Common.{
  Config, PktHdr, Stats, daq_success, daq_error, daq_error_nomod, daq_error_noctx, daq_error_inval,
  daq_error_notsup, mode_passive, mode_inline, mode_read_file, type_intf_capable,
  type_inline_capable, type_file_capable, state_initialized, state_started, state_unknown,
}
use libdaq.Module.{Module, Callback, MetaCallback, InitReply, FlowArg, DpKey, ChannelParams}
use libdaq.Names.{daq_mode_string}

-- `snprintf(errbuf, len, ...)` of a text: what is in a buffer that the caller cleared.
abbrev pub snprintf : ℕ → CString → CString
snprintf len text = take (len - 1) text

-- A code, and the context that is left.
abbrev pub Reply : Type 0 → Type 0
Reply C = Option (ℤ × Option C)

abbrev pub reply : {C : Type 0} → C × ℤ → Reply C
reply (c, code) = some (code, some c)

-- Whether the module lacks the type flag that the mode of the configuration asks for.
unfoldable pub lacks_mode : ℕ → ℕ → Bool
lacks_mode type mode =
    (mode == mode_passive && bit_and type type_intf_capable == 0)
    || (mode == mode_inline && bit_and type type_inline_capable == 0)
    || (mode == mode_read_file && bit_and type type_file_capable == 0)

abbrev pub mode_name : Option CString → CString
mode_name none = codes "(null)"
mode_name (some s) = s

-- The refusal of a mode; none if the name of the mode is read outside its table.
unfoldable pub mode_refused : CString → ℕ → ℕ → Option CString
mode_refused name mode len = do
  text ← daq_mode_string mode
  some (
      snprintf len (
        codes "The "
        ++ (name ++ (codes " DAQ module does not support " ++ (mode_name text ++ codes " mode!")))))

abbrev pub not_started : CString
not_started = codes "Can't acquire packets from an instance that isn't started!"

abbrev acquired : {C U : Type 0} → C × U × ℤ → Option (ℤ × Option C × U)
acquired (c, user, code) = some (code, some c, user)

module _ {C U : Type 0} where
  -- `module->set_errbuf(handle, text); return code;`
  unfoldable pub refuse : Module C U → C → CString → ℤ → Reply C
  refuse m c text code = do set ← m.set_errbuf; some (code, some (set c text))

  -- `daq_initialize`. `has_handle` and `has_errbuf` are whether these pointers are not NULL; the
  -- text is what the call leaves in an empty `errbuf`.
  unfoldable pub daq_initialize :
      Option (Module C U) → Option Config → Bool → Bool → ℕ → Option (InitReply C)
  daq_initialize m config has_handle false len =
      some (record { code = daq_error; handle = none; errbuf = [] })
  daq_initialize none config has_handle true len =
      some (record { code = daq_error_nomod; handle = none; errbuf = [] })
  daq_initialize (some m) none has_handle true len = some (record {
    code = daq_error_inval;
    handle = none;
    errbuf = snprintf len (codes "Can't initialize without a configuration!");
  })
  daq_initialize (some m) (some config) false true len = some (record {
    code = daq_error_inval;
    handle = none;
    errbuf = snprintf len (codes "Can't initialize without a context pointer!");
  })
  daq_initialize (some m) (some config) true true len =
      if lacks_mode m.type config.mode
      then (do
        text ← mode_refused m.name config.mode len
        some (record { code = daq_error_inval; handle = none; errbuf = text }))
      else do f ← m.initialize; some (f config)

  -- `daq_set_filter`.
  unfoldable pub daq_set_filter : Option (Module C U) → Option C → Option CString → Reply C
  daq_set_filter none h filter = some (daq_error_nomod, h)
  daq_set_filter (some m) none filter = some (daq_error_noctx, none)
  daq_set_filter (some m) (some c) none =
      refuse m c (codes "No filter string specified!") daq_error_inval
  daq_set_filter (some m) (some c) (some filter) = do f ← m.set_filter; reply (f c filter)

  -- `module->check_status(handle) != wanted`, and what is done if they are equal.
  unfoldable pub when_status : Module C U → C → ℕ → CString → Reply C → Reply C
  unfolding refuse
  when_status m c wanted text go = do
    status ← m.check_status
    if not (status c == wanted) then refuse m c text daq_error else go

  -- `daq_start`.
  unfoldable pub daq_start : Option (Module C U) → Option C → Reply C
  daq_start none h = some (daq_error_nomod, h)
  daq_start (some m) none = some (daq_error_noctx, none)
  daq_start (some m) (some c) =
      when_status m c state_initialized (codes "Can't start an instance that isn't initialized!")
        (do f ← m.start; reply (f c))

  -- `daq_acquire_with_meta`: the reply, and the user's state after the callbacks.
  unfoldable pub daq_acquire_with_meta :
      Option (Module C U)
      → Option C
      → ℤ
      → Option (Callback U)
      → Option (MetaCallback U)
      → U
      → Option (ℤ × Option C × U)
  daq_acquire_with_meta none h cnt callback metaback user = some (daq_error_nomod, h, user)
  daq_acquire_with_meta (some m) none cnt callback metaback user =
      some (daq_error_noctx, none, user)
  daq_acquire_with_meta (some m) (some c) cnt callback metaback user = do
    status ← m.check_status
    if not (status c == state_started)
        then (do set ← m.set_errbuf; some (daq_error, some (set c not_started), user))
        else (do f ← m.acquire; acquired (f c user cnt callback metaback))

  -- `daq_acquire`.
  unfoldable pub daq_acquire :
      Option (Module C U) → Option C → ℤ → Option (Callback U) → U → Option (ℤ × Option C × U)
  daq_acquire none h cnt callback user = some (daq_error_nomod, h, user)
  daq_acquire (some m) none cnt callback user = some (daq_error_noctx, none, user)
  daq_acquire (some m) (some c) cnt callback user = do
    status ← m.check_status
    if not (status c == state_started)
        then (do set ← m.set_errbuf; some (daq_error, some (set c not_started), user))
        else (do f ← m.acquire; acquired (f c user cnt callback none))

  -- `daq_inject`.
  unfoldable pub daq_inject :
      Option (Module C U) → Option C → Option PktHdr → Option (List ℕ) → ℕ → ℤ → Reply C
  daq_inject none h hdr packet_data len reverse = some (daq_error_nomod, h)
  daq_inject (some m) none hdr packet_data len reverse = some (daq_error_noctx, none)
  daq_inject (some m) (some c) none packet_data len reverse =
      refuse m c (codes "No originating packet header specified!") daq_error_inval
  daq_inject (some m) (some c) (some hdr) none len reverse =
      refuse m c (codes "No packet data specified!") daq_error_inval
  daq_inject (some m) (some c) (some hdr) (some packet_data) len reverse = do
    f ← m.inject
    reply (f c hdr packet_data len reverse)

  -- `daq_breakloop`.
  unfoldable pub daq_breakloop : Option (Module C U) → Option C → Reply C
  daq_breakloop none h = some (daq_error_nomod, h)
  daq_breakloop (some m) none = some (daq_error_noctx, none)
  daq_breakloop (some m) (some c) = do f ← m.breakloop; reply (f c)

  -- `daq_stop`.
  unfoldable pub daq_stop : Option (Module C U) → Option C → Reply C
  daq_stop none h = some (daq_error_nomod, h)
  daq_stop (some m) none = some (daq_error_noctx, none)
  daq_stop (some m) (some c) =
      when_status m c state_started (codes "Can't stop an instance that hasn't started!")
        (do f ← m.stop; reply (f c))

  -- `daq_shutdown`.
  unfoldable pub daq_shutdown : Option (Module C U) → Option C → Reply C
  daq_shutdown none h = some (daq_error_nomod, h)
  daq_shutdown (some m) none = some (daq_error_noctx, none)
  daq_shutdown (some m) (some c) = do f ← m.shutdown; some (daq_success, none)
