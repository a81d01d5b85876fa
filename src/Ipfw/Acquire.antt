-- ===== src/Ipfw/Acquire.antt =====
-- os-daq-modules/daq_ipfw.c: `ipfw_daq_acquire`. What select and recvfrom answer in each round is a
-- list; while it has rounds left the loop runs.
use libdaq.Prelude.{
  drop, ℕ, zero, suc, ◌-◌, ◌^◌, ℤ, pos, negsuc, CString, codes, List, [], ◌∷◌, ◌++◌, length, take,
  get_or, Option, none, some, Bool, true, false, ◌==◌, ◌||◌, not, leb, ltb, if◌then◌else◌,
}
use libdaq.Common.{
  PktHdr, inc64, count_verdict, max_daq_verdict, verdict_pass, verdict_block, daq_error,
}
use libdaq.Module.{in_place}
use libdaq.Ipfw.{SockAddrIn, IpfwImpl, Datagram, socket_error, ipfw_daq_forward, ipfw_daq_breakloop}

-- A callback: what the user pointer points to (none is NULL), and the application's own state; then
-- its verdict, and the bytes that it writes over the packet in the buffer.
abbrev pub Analysis : Type 0 → Type 0 → Type 0
Analysis U G = Option U → G → PktHdr → List ℕ → G × ℕ × List ℕ

-- A datagram that arrives, the time that gettimeofday gives for it, what sendto answers for it and
-- strerror then, and whether `ipfw_daq_breakloop` is called while it is handled.
pub record Received : Type 0 where
  pub tv_sec : ℕ
  pub tv_usec : ℕ
  pub bytes : List ℕ
  pub from : SockAddrIn
  pub sends : Bool
  pub strerror : CString
  pub breaks : Bool

-- A round: select or recvfrom fails, with EINTR or with a text; nothing arrives in time; a datagram.
pub data Round : Type 0 where
  select_interrupted : Round
  select_failed : CString → Round
  timed_out : Round
  recv_interrupted : Received → Round
  recv_failed : CString → Round
  arrived : Received → Round

-- The module, the application and the wire.
pub record Session (F G : Type 0) : Type 0 where
  pub impl : IpfwImpl F
  pub app : G
  pub wire : List Datagram

-- `s_fwd`.
abbrev pub ipfw_fwd : List ℕ
ipfw_fwd = 1 ∷ 0 ∷ 1 ∷ 1 ∷ 0 ∷ 1 ∷ 0 ∷ []

-- `SetPktHdr`, with the length as a uint32_t.
unfoldable pub set_pkt_hdr : Received → ℕ → PktHdr
set_pkt_hdr r len = record {
  tv_sec = r.tv_sec;
  tv_usec = r.tv_usec;
  caplen = len;
  pktlen = len;
  ingress_index = negsuc 0;
  egress_index = negsuc 0;
  ingress_group = negsuc 0;
  egress_group = negsuc 0;
  flags = 0;
  address_space_id = 0;
}

-- `impl->count < 0 || n < impl->count`.
unfoldable pub goes_on : ℤ → ℕ → Bool
goes_on (negsuc m) n = true
goes_on (pos m) n = ltb n m

-- `(cnt == 0) ? -1 : cnt`.
unfoldable pub count_of : ℤ → ℤ
count_of (pos zero) = negsuc 0
count_of (pos (suc n)) = pos (suc n)
count_of (negsuc n) = negsuc n

-- `if (verdict >= MAX_DAQ_VERDICT) verdict = DAQ_VERDICT_BLOCK;`
abbrev pub ipfw_verdict : ℕ → ℕ
ipfw_verdict v = if leb max_daq_verdict v then verdict_block else v

module _ {F U G : Type 0} (filter : F → List ℕ → ℕ → ℕ) (callback : Analysis U G) where
  -- There is a filter and it gives 0.
  abbrev pub keeps_back : Option F → List ℕ → ℕ → Bool
  keeps_back none bytes len = false
  keeps_back (some fcode) bytes len = filter fcode bytes len == 0

  abbrev pub break_if : Bool → IpfwImpl F → IpfwImpl F
  break_if false impl = impl
  break_if true impl = (ipfw_daq_breakloop impl).1

  -- The verdict on a packet, and the counters.
  unfoldable pub judge : Session F G → Received → ℕ → ℕ × Session F G
  unfolding set_pkt_hdr ipfw_daq_breakloop
  judge s r len =
      let bytes = take len s.impl.buf in
      let stats = s.impl.stats in
      if keeps_back s.impl.fcode bytes len
      then (
        verdict_pass,
        record s {
          impl = break_if r.breaks (record s.impl {
            stats = record stats { packets_filtered = inc64 stats.packets_filtered };
          });
        },
      )
      else (let (app', v, left) = callback none s.app (set_pkt_hdr r len) bytes in
          (
            ipfw_verdict v,
            record s {
              impl = break_if r.breaks (record s.impl {
                stats = record stats {
                  verdicts = count_verdict stats.verdicts (ipfw_verdict v);
                  packets_received = inc64 stats.packets_received;
                };
                buf = in_place s.impl.buf left;
              });
              app = app';
            },
          ))

  -- `if (impl->passive || s_fwd[verdict]) ipfw_daq_forward(...)`; its code is not looked at.
  unfoldable pub send_back : Session F G → Received → ℕ → ℕ → Session F G
  unfolding ipfw_daq_forward
  send_back s r len verdict =
      if s.impl.passive || not (get_or ipfw_fwd verdict 0 == 0)
      then (let (code, impl', wire') =
            ipfw_daq_forward r.sends r.strerror s.impl (take len s.impl.buf) s.wire in
          record s { impl = impl'; wire = wire' })
      else s

  -- What follows recvfrom, for a packet of `len` bytes in the buffer.
  unfoldable pub handle_packet : Session F G → Received → ℕ → Session F G
  unfolding judge send_back
  handle_packet s r len =
      let stats = s.impl.stats in
      let counted = record s.impl {
        stats = record stats { hw_packets_received = inc64 stats.hw_packets_received };
      } in
      let (verdict, s') = judge (record s { impl = counted }) r len in send_back s' r len verdict

  -- recvfrom stores at most `snaplen` bytes, and the sender.
  unfoldable pub store : IpfwImpl F → Received → IpfwImpl F
  store impl r =
      let bytes = take impl.snaplen r.bytes in
      record impl { buf = bytes ++ drop (length bytes) impl.buf; sin = r.from }

  abbrev pub acquire_error : Session F G → CString → CString → Session F G
  acquire_error s what strerror = record s {
    impl = socket_error s.impl (codes "ipfw_daq_acquire") what strerror;
  }

  -- The loop: its code when it has ended. A recvfrom that is interrupted goes on with length -1.
  unfoldable pub acquire_loop : List Round → ℕ → Session F G → Option ℤ × Session F G
  unfolding goes_on handle_packet store
  acquire_loop [] n s = if goes_on s.impl.count n then (none, s) else (some (pos 0), s)
  acquire_loop (Round.select_interrupted ∷ rs) n s = (some (pos 0), s)
  acquire_loop (Round.select_failed text ∷ rs) n s =
      if goes_on s.impl.count n
      then (some daq_error, acquire_error s (codes "select") text)
      else (some (pos 0), s)
  acquire_loop (Round.timed_out ∷ rs) n s =
      let rest = acquire_loop rs n s in if goes_on s.impl.count n then rest else (some (pos 0), s)
  acquire_loop (Round.recv_failed text ∷ rs) n s =
      if goes_on s.impl.count n
      then (some daq_error, acquire_error s (codes "readfrom") text)
      else (some (pos 0), s)
  acquire_loop (Round.recv_interrupted r ∷ rs) n s =
      let rest = acquire_loop rs (suc n) (handle_packet s r (2 ^ 32 - 1)) in
      if goes_on s.impl.count n then rest else (some (pos 0), s)
  acquire_loop (Round.arrived r ∷ rs) n s =
      let stored = record s { impl = store s.impl r } in
      let rest =
        acquire_loop rs (suc n) (handle_packet stored r (length (take s.impl.snaplen r.bytes))) in
      if goes_on s.impl.count n then rest else (some (pos 0), s)

  -- `ipfw_daq_acquire`; `user` is not passed on.
  unfoldable pub ipfw_daq_acquire : ℤ → Option U → List Round → Session F G → Option ℤ × Session F G
  unfolding count_of acquire_loop
  ipfw_daq_acquire cnt user rounds s =
      acquire_loop rounds 0 (record s { impl = record s.impl { count = count_of cnt } })
