-- ===== src/Dump.antt =====
-- os-daq-modules/daq_dump.c: the module that wraps another one, its delegate, and writes what passes
-- to a pcap file and a text file. A function of the delegate may be NULL: calling it is the outer
-- `none`. libpcap is an argument; whether fopen and the allocator succeed is one too.
pub mod State
pub mod Text
pub mod Vars
pub mod Flow
pub mod Capture
pub mod Files
pub mod Hex
pub mod Options
mod Tests
use libdaq.Prelude.{
  ℕ, ◌+◌, ℤ, pos, negsuc, eqb_ℤ, CString, codes, List, [], ◌∷◌, ◌++◌, get_or, get_elem?, Option,
  none, some, Bool, true, false, not, ◌&&◌, leb, ◌==◌, if◌then◌else◌, ◌>>=◌, bit_and, bit_or,
}
use libdaq.Common.{
  Stats, PktHdr, no_stats, count_verdict, inc64, daq_success, daq_error, max_daq_verdict,
  verdict_block, verdict_replace, capa_block, capa_replace, capa_inject,
}
use libdaq.Module.{Module, Callback, in_place, MetaCallback, FlowArg, DpKey, ChannelParams}
use libdaq.Dump.Text.{dec, hexdump}
use libdaq.Dump.State.{
  Impl, Output, Pcap, clamp_verdict, count_injected, inject_entry, or_default, output_pcap,
  output_text, print, s_fwd, verdict_entry,
}

module _ {P D : Type 0} (pcap : Pcap P D) where
  -- `if (impl->dump && s_fwd[verdict]) pcap_dump(...)`.
  unfoldable pub forward : Option D → PktHdr → List ℕ → ℕ → Option D
  forward none hdr pkt verdict = none
  forward (some d) hdr pkt verdict =
      if get_or s_fwd verdict 0 == 0 then some d else some (pcap.dump d hdr pkt)

  -- `daq_dump_capture`, after the application's callback gave its verdict.
  unfoldable pub record_verdict : Output D → PktHdr → List ℕ → ℕ → Output D
  unfolding forward
  record_verdict out hdr pkt verdict = record out {
    stats = record out.stats { verdicts = count_verdict out.stats.verdicts verdict };
    dump = forward out.dump hdr pkt verdict;
    text_out = print (verdict_entry hdr pkt verdict) out.text_out;
  }

  -- `daq_dump_capture`: its `user` is the module's own state beside the application's. The packet is
  -- dumped as the application left it.
  unfoldable pub daq_dump_capture :
      {U : Type 0} → Callback U → Output D × U → PktHdr → List ℕ → (Output D × U) × ℕ × List ℕ
  unfolding record_verdict
  daq_dump_capture callback (out, user) hdr pkt =
      let (user', v, left) = callback user hdr pkt in
      let verdict = clamp_verdict v in
      let pkt' = in_place pkt left in ((record_verdict out hdr pkt' verdict, user'), verdict, pkt')

  module _ {C U : Type 0} (m : Module C (Output D × U)) where
    -- A code, and the instance after the call.
    abbrev pub Reply : Type 0
    Reply = Option (ℤ × Impl C D)

    -- `impl->module->set_errbuf(impl->handle, text)`, and the code that the caller returns.
    unfoldable pub fail : Impl C D → CString → ℤ → Reply
    fail impl text code = do
      set ← m.set_errbuf
      some (code, record impl { handle = set impl.handle text })

    -- `dump_daq_acquire`. The delegate calls `metaback` with the module's state as `user`.
    unfoldable pub dump_daq_acquire :
        Impl C D
        → ℤ
        → Callback U
        → Option (MetaCallback (Output D × U))
        → U
        → Option (ℤ × Impl C D × U)
    dump_daq_acquire impl cnt callback metaback user = do
      f ← m.acquire
      (let (c, (out, user'), code) =
            f impl.handle (impl.out, user) cnt (some (daq_dump_capture callback)) metaback in
          some (code, record { handle = c; out = out }, user'))

    -- The dump of an injected packet, and the count if nothing failed.
    unfoldable pub inject_dump : Impl C D → D → PktHdr → List ℕ → ℕ → Reply
    unfolding fail
    inject_dump impl d hdr bytes len =
        let d' = pcap.dump d (record hdr { pktlen = len; caplen = len }) bytes in
        let impl' : Impl C D = record impl { out = record impl.out { dump = some d' } } in
        if pcap.failed d'
        then fail impl' (codes "inject can't write to dump file") daq_error
        else some (daq_success, count_injected impl')

    -- `dump_daq_inject`.
    unfoldable pub dump_daq_inject : Impl C D → PktHdr → List ℕ → ℕ → ℤ → Reply
    unfolding inject_dump
    dump_daq_inject impl hdr bytes len reverse =
        let impl' : Impl C D = record impl {
          out = record impl.out {
            text_out = print (inject_entry hdr bytes len reverse) impl.out.text_out;
          };
        } in
        elim impl.out.dump [
          | none ↦ some (daq_success, count_injected impl')
          | some d ↦ inject_dump impl' d hdr bytes len
        ]

    -- A file that cannot be opened: the delegate is stopped, and the error text set.
    unfoldable pub abort_start : Impl C D → CString → Reply
    unfolding fail
    abort_start impl text = do
      stop ← m.stop
      fail (record impl { handle = (stop impl.handle).0 }) text daq_error

    -- `pcap ? pcap_dump_open(pcap, pcap_filename) : NULL`.
    unfoldable pub open_dump : ℤ → ℤ → Option CString → Option D
    open_dump dlt snap filename = do
      p ← pcap.open_dead dlt snap
      pcap.dump_open p (or_default filename (codes "inline-out.pcap"))

    -- The second half of `dump_daq_start`: `fopen` of the text file.
    unfoldable pub start_text : (CString → Bool) → Impl C D → Reply
    unfolding abort_start
    start_text fopen_ok impl =
        if bit_and impl.out.output_type output_text == 0
        then some (daq_success, impl)
        else if fopen_ok (or_default impl.out.text_filename (codes "inline-out.txt"))
        then some (daq_success, record impl { out = record impl.out { text_out = some [] } })
        else abort_start (record impl { out = record impl.out { text_out = none } })
            (codes "can't open text output file")

    -- The first half: the pcap file.
    unfoldable pub start_dump : (CString → Bool) → ℤ → ℤ → Impl C D → Reply
    unfolding abort_start open_dump start_text
    start_dump fopen_ok dlt snap impl =
        let dump = open_dump dlt snap impl.out.pcap_filename in
        let impl' : Impl C D = record impl { out = record impl.out { dump = dump } } in
        if bit_and impl.out.output_type output_pcap == 0
        then start_text fopen_ok impl
        else elim dump [
          | none ↦ abort_start impl' (codes "can't open dump file")
          | some d ↦ start_text fopen_ok impl'
        ]

    -- `dump_daq_start`.
    unfoldable pub dump_daq_start : (CString → Bool) → Impl C D → Reply
    unfolding start_dump
    dump_daq_start fopen_ok impl = do
      start ← m.start
      (let (c, ret) = start impl.handle in
          let impl' : Impl C D = record impl { handle = c } in
          if not (eqb_ℤ ret (pos 0)) then some (ret, impl') else (do
            dlt ← m.get_datalink_type
            snap ← m.get_snaplen
            start_dump fopen_ok (dlt c) (snap c) impl'))

    -- `dump_daq_stop`.
    unfoldable pub dump_daq_stop : Impl C D → Reply
    dump_daq_stop impl = do
      stop ← m.stop
      (let (c, err) = stop impl.handle in
          if not (eqb_ℤ err (pos 0))
          then some (err, record impl { handle = c })
          else some (
            daq_success,
            record { handle = c; out = record impl.out { dump = none; text_out = none } },
          ))

    -- `dump_daq_get_stats`: also what it leaves in `*stats`.
    unfoldable pub dump_daq_get_stats : Impl C D → Stats → Option (ℤ × Impl C D × Stats)
    dump_daq_get_stats impl stats = do
      get ← m.get_stats
      (let (c, stats', ret) = get impl.handle stats in
          some (
            ret,
            record impl { handle = c },
            record stats' {
              verdicts = impl.out.stats.verdicts;
              packets_injected = impl.out.stats.packets_injected;
            },
          ))

    -- `dump_daq_reset_stats`.
    unfoldable pub dump_daq_reset_stats : Impl C D → Option (Impl C D)
    dump_daq_reset_stats impl = do
      reset ← m.reset_stats
      some (record { handle = reset impl.handle; out = record impl.out { stats = no_stats } })

    -- `dump_daq_set_filter`.
    unfoldable pub dump_daq_set_filter : Impl C D → CString → Reply
    dump_daq_set_filter impl filter = do
      f ← m.set_filter
      (let (c, code) = f impl.handle filter in some (code, record impl { handle = c }))

    -- `dump_daq_breakloop`.
    unfoldable pub dump_daq_breakloop : Impl C D → Reply
    dump_daq_breakloop impl = do
      f ← m.breakloop
      (let (c, code) = f impl.handle in some (code, record impl { handle = c }))

    -- `dump_daq_check_status`.
    unfoldable pub dump_daq_check_status : Impl C D → Option ℕ
    dump_daq_check_status impl = do f ← m.check_status; some (f impl.handle)

    -- `dump_daq_get_snaplen`.
    unfoldable pub dump_daq_get_snaplen : Impl C D → Option ℤ
    dump_daq_get_snaplen impl = do f ← m.get_snaplen; some (f impl.handle)

    -- `dump_daq_get_capabilities`.
    unfoldable pub dump_daq_get_capabilities : Impl C D → Option ℕ
    dump_daq_get_capabilities impl = do
      f ← m.get_capabilities
      some (bit_or (f impl.handle) (bit_or capa_block (bit_or capa_replace capa_inject)))

    -- `dump_daq_get_datalink_type`.
    unfoldable pub dump_daq_get_datalink_type : Impl C D → Option ℤ
    dump_daq_get_datalink_type impl = do f ← m.get_datalink_type; some (f impl.handle)

    -- `dump_daq_get_errbuf`.
    unfoldable pub dump_daq_get_errbuf : Impl C D → Option CString
    dump_daq_get_errbuf impl = do f ← m.get_errbuf; some (f impl.handle)

    -- `dump_daq_set_errbuf`.
    unfoldable pub dump_daq_set_errbuf : Impl C D → Option CString → Option (Impl C D)
    dump_daq_set_errbuf impl s = do
      set ← m.set_errbuf
      some (record impl { handle = set impl.handle (or_default s []) })

    -- `dump_daq_get_device_index`.
    unfoldable pub dump_daq_get_device_index : Impl C D → CString → Option ℤ
    dump_daq_get_device_index impl device = do f ← m.get_device_index; some (f impl.handle device)
