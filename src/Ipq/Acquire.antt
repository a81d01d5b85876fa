-- ===== src/Ipq/Acquire.antt =====
-- os-daq-modules/daq_ipq.c: `ipq_daq_acquire`. What ipq_read, and the functions that take its message
-- apart, answer in each round is a list; while it has rounds left the loop runs.
use libdaq.Prelude.{
  drop, ℕ, suc, ℤ, pos, negsuc, CString, codes, List, [], ◌∷◌, ◌++◌, length, take, Option, none,
  some, Bool, true, false, ◌==◌, ◌||◌, leb, if◌then◌else◌,
}
use libdaq.Common.{
  PktHdr, verdict_pass, verdict_block, verdict_replace, verdict_blacklist, verdict_retry, daq_error,
}
use libdaq.Ipfw.Acquire.{goes_on, count_of}
use libdaq.Counting.{clamp, count_seen, count_filtered, count_asked}
use libdaq.Netfilter.{Analysis, NfVerdict, nf_accept, nf_drop}
use libdaq.Nfq.Acquire.{held_back}
use libdaq.Ipq.{IpqImpl, set_error, ipq_daq_breakloop}

-- ipq_packet_msg_t, with the bytes behind it; their number is `data_len`.
pub record IpqPacket : Type 0 where
  pub packet_id : ℕ
  pub timestamp_sec : ℕ
  pub timestamp_usec : ℕ
  pub payload : List ℕ

-- While a packet is handled: the time that gettimeofday gives, whether ipq_set_verdict succeeds, the error
-- text (its number and that of ipq_errstr), and whether `ipq_daq_breakloop` is called.
pub record IpqMoment : Type 0 where
  pub tv_sec : ℕ
  pub tv_usec : ℕ
  pub accepts : Bool
  pub errstr : CString
  pub breaks : Bool

-- A round: ipq_read fails, with a text; nothing is there in time; a message that is no packet, with the
-- text on it; a packet.
pub data IpqRound : Type 0 where
  read_failed : CString → IpqRound
  nothing : IpqRound
  other_message : CString → IpqRound
  queued : IpqMoment → IpqPacket → IpqRound

-- The module, the application and the verdicts given to ipq_set_verdict.
pub record IpqSession (F G : Type 0) : Type 0 where
  pub impl : IpqImpl F
  pub app : G
  pub given : List NfVerdict

-- The header: what `ipq_daq_acquire` fills before its loop, and `SetPktHdr`.
unfoldable pub ipq_hdr : IpqMoment → ℕ → IpqPacket → PktHdr
ipq_hdr m snaplen p =
    let len = length p.payload in
    record {
      tv_sec = if p.timestamp_sec == 0 then m.tv_sec else p.timestamp_sec;
      tv_usec = if p.timestamp_sec == 0 then m.tv_usec else p.timestamp_usec;
      caplen = if leb len snaplen then len else snaplen;
      pktlen = len;
      ingress_index = negsuc 0;
      egress_index = negsuc 0;
      ingress_group = negsuc 0;
      egress_group = negsuc 0;
      flags = 0;
      address_space_id = 0;
    }

-- The switch: `payload` is the packet as the application leaves it.
unfoldable pub ipq_answer : ℕ → ℕ → PktHdr → List ℕ → NfVerdict
ipq_answer verdict id hdr payload =
    if verdict == verdict_block || (verdict == verdict_retry || verdict == verdict_blacklist)
    then record { packet_id = id; verdict = nf_drop; bytes = [] }
    else if verdict == verdict_replace
    then record { packet_id = id; verdict = nf_accept; bytes = take hdr.pktlen payload }
    else record { packet_id = id; verdict = nf_accept; bytes = [] }

module _ {F U G : Type 0} (filter : F → List ℕ → ℕ → ℕ) (callback : Analysis U G) where
  -- The verdict on a packet, its bytes as the application leaves them, and the counters. The
  -- application writes at most where it was shown the packet.
  unfoldable pub ipq_judge :
      Option U → IpqSession F G → PktHdr → List ℕ → ℕ × List ℕ × IpqSession F G
  ipq_judge user s hdr payload =
      let bytes = take hdr.caplen payload in
      let stats = count_seen s.impl.stats in
      if held_back filter s.impl.fcode bytes hdr.caplen
      then (
        verdict_pass,
        payload,
        record s { impl = record s.impl { stats = count_filtered stats } },
      )
      else (let (app', v, left) = callback user s.app hdr bytes in
          (
            clamp v,
            take hdr.caplen left ++ drop hdr.caplen payload,
            record s { impl = record s.impl { stats = count_asked (clamp v) stats }; app = app' },
          ))

  abbrev pub break_if : Bool → IpqImpl F → IpqImpl F
  break_if false impl = impl
  break_if true impl = (ipq_daq_breakloop impl).1

  -- A packet: `if ( impl->passive ) verdict = DAQ_VERDICT_PASS;` and the switch.
  unfoldable pub ipq_handle : Option U → IpqMoment → IpqPacket → IpqSession F G → IpqSession F G
  unfolding ipq_hdr ipq_judge ipq_answer ipq_daq_breakloop
  ipq_handle user m p s =
      let hdr = ipq_hdr m s.impl.snaplen p in
      let (v, left, s') = ipq_judge user s hdr p.payload in
      let verdict = if s'.impl.passive then verdict_pass else v in
      record s' {
        impl = break_if m.breaks s'.impl;
        given = s'.given ++ (ipq_answer verdict p.packet_id hdr left ∷ []);
      }

  abbrev pub ipq_error : IpqSession F G → CString → CString → IpqSession F G
  ipq_error s what text = record s {
    impl = set_error s.impl (codes "ipq_daq_acquire: " ++ (what ++ text));
  }

  -- The loop: its code when it has ended.
  unfoldable pub ipq_loop :
      Option U → List IpqRound → ℕ → IpqSession F G → Option ℤ × IpqSession F G
  unfolding goes_on ipq_handle
  ipq_loop user [] n s = if goes_on s.impl.count n then (none, s) else (some (pos 0), s)
  ipq_loop user (IpqRound.read_failed text ∷ rs) n s =
      if goes_on s.impl.count n
      then (some daq_error, ipq_error s (codes "ipq_read=") text)
      else (some (pos 0), s)
  ipq_loop user (IpqRound.nothing ∷ rs) n s = (some (pos 0), s)
  ipq_loop user (IpqRound.other_message text ∷ rs) n s =
      let rest = ipq_loop user rs n (ipq_error s (codes "ipq_message_type=") text) in
      if goes_on s.impl.count n then rest else (some (pos 0), s)
  ipq_loop user (IpqRound.queued m p ∷ rs) n s =
      let s' = ipq_handle user m p s in
      let rest = ipq_loop user rs (suc n) s' in
      if goes_on s.impl.count n
      then (if m.accepts
          then rest
          else (some daq_error, ipq_error s' (codes "ipq_set_verdict=") m.errstr))
      else (some (pos 0), s)

  -- `ipq_daq_acquire`.
  unfoldable pub ipq_daq_acquire :
      ℤ → Option U → List IpqRound → IpqSession F G → Option ℤ × IpqSession F G
  unfolding count_of ipq_loop
  ipq_daq_acquire cnt user rounds s =
      ipq_loop user rounds 0 (record s { impl = record s.impl { count = count_of cnt } })
