-- ===== src/Nfq/Acquire.antt =====
-- os-daq-modules/daq_nfq.c: `daq_nfq_callback` and `nfq_daq_acquire`. What select and recv answer in each
-- round is a list; while it has rounds left the loop runs. `nfq_handle_packet` is the function of
-- libnetfilter_queue that reads a datagram and calls back.
use libdaq.Prelude.{
  drop, ℕ, suc, ℤ, pos, negsuc, to_int, CString, codes, List, [], ◌∷◌, ◌++◌, length, take, get_or,
  Option, none, some, Bool, true, false, ◌==◌, ◌||◌, not, leb, if◌then◌else◌,
}
use libdaq.Common.{PktHdr, verdict_pass, verdict_replace, daq_error, state_started}
use libdaq.Ipfw.Acquire.{goes_on, count_of}
use libdaq.Counting.{clamp, count_seen, count_filtered, count_asked}
use libdaq.Netfilter.{Analysis, NfVerdict, nf_accept, nf_drop}
use libdaq.Nfq.{NfqImpl, set_error, nfq_daq_breakloop}
use libdaq.Nfq.Init.{nfq_buf_size}

-- A packet as libnetfilter_queue hands it out: its number in the byte order of the host, its bytes,
-- the time stamp (seconds and microseconds) and the interface that it came from.
pub record Queued : Type 0 where
  pub packet_id : Option ℕ
  pub payload : Option (List ℕ)
  pub timestamp : Option (ℕ × ℕ)
  pub physindev : ℕ

-- While a datagram is handled: the time that gettimeofday gives, strerror, and whether
-- `nfq_daq_breakloop` is called.
pub record Moment : Type 0 where
  pub tv_sec : ℕ
  pub tv_usec : ℕ
  pub strerror : CString
  pub breaks : Bool

-- A round: select fails, with EINTR or with a text; nothing is there in time; recv gives bytes, or none
-- if it fails.
pub data Round : Type 0 where
  select_interrupted : Round
  select_failed : CString → Round
  timed_out : Round
  arrived : Moment → List ℕ → Round

-- The module, the application and the verdicts that the kernel was given.
pub record Session (F U G : Type 0) : Type 0 where
  pub impl : NfqImpl F U
  pub app : G
  pub given : List NfVerdict

-- `s_fwd`.
abbrev pub nfq_fwd : List ℕ
nfq_fwd = 1 ∷ 0 ∷ 1 ∷ 1 ∷ 0 ∷ 1 ∷ 0 ∷ []

-- The header that `SetPktHdr` fills for a packet of `len` bytes.
unfoldable pub nfq_hdr : Moment → ℕ → Queued → ℕ → PktHdr
nfq_hdr m snaplen q len = record {
  tv_sec = elim q.timestamp [ none ↦ m.tv_sec | some (sec, usec) ↦ sec ];
  tv_usec = elim q.timestamp [ none ↦ m.tv_usec | some (sec, usec) ↦ usec ];
  caplen = if leb len snaplen then len else snaplen;
  pktlen = len;
  ingress_index = to_int (pos q.physindev);
  egress_index = negsuc 0;
  ingress_group = negsuc 0;
  egress_group = negsuc 0;
  flags = 0;
  address_space_id = 0;
}

-- `SetPktHdr`: the bytes, if there are any.
unfoldable pub nfq_payload : Option (List ℕ) → Option (List ℕ)
nfq_payload none = none
nfq_payload (some []) = none
nfq_payload (some (b ∷ bytes)) = some (b ∷ bytes)

abbrev negative : ℤ → Bool
negative (pos n) = false
negative (negsuc n) = true

module _ {F : Type 0} (filter : F → List ℕ → ℕ → ℕ) where
  -- There is a filter and it gives 0.
  abbrev pub held_back : Option F → List ℕ → ℕ → Bool
  held_back none bytes len = false
  held_back (some fcode) bytes len = filter fcode bytes len == 0

module _ {F U G : Type 0} (filter : F → List ℕ → ℕ → ℕ) (callback : Analysis U G) where
  -- The verdict on a packet, the bytes as the application leaves them, and the counters.
  unfoldable pub nfq_judge : Session F U G → PktHdr → List ℕ → ℕ × List ℕ × Session F U G
  nfq_judge s hdr pkt =
      let bytes = take hdr.caplen pkt in
      if held_back filter s.impl.fcode bytes hdr.caplen
      then (
        verdict_pass,
        bytes,
        record s { impl = record s.impl { stats = count_filtered s.impl.stats } },
      )
      else (let (app', v, left) = callback s.impl.user_data s.app hdr bytes in
          (
            clamp v,
            left,
            record s {
              impl = record s.impl { stats = count_asked (clamp v) s.impl.stats };
              app = app';
            },
          ))

  -- nfq_set_verdict, whose answer is not looked at.
  unfoldable pub nfq_answer : Bool → ℕ → ℕ → PktHdr → List ℕ → NfVerdict
  nfq_answer passive id verdict hdr left = record {
    packet_id = id;
    verdict = if passive || not (get_or nfq_fwd verdict 0 == 0) then nf_accept else nf_drop;
    bytes = take (if verdict == verdict_replace then hdr.caplen else 0) left;
  }

  abbrev pub break_if : Bool → NfqImpl F U → NfqImpl F U
  break_if false impl = impl
  break_if true impl = (nfq_daq_breakloop impl).1

  -- What follows the header.
  unfoldable pub nfq_decide : Moment → ℕ → PktHdr → List ℕ → Session F U G → ℤ × Session F U G
  unfolding nfq_judge nfq_answer nfq_daq_breakloop
  nfq_decide m id hdr pkt s =
      let (verdict, left, s') = nfq_judge s hdr pkt in
      (
        pos 0,
        record s' {
          impl = break_if m.breaks s'.impl;
          given = s'.given ++ (nfq_answer s'.impl.passive id verdict hdr left ∷ []);
        },
      )

  abbrev no_header : Session F U G → ℤ × Session F U G
  no_header s = (
    negsuc 0,
    record s { impl = set_error s.impl (codes "daq_nfq_callback: can't setup packet header") },
  )

  -- `!ph || SetPktHdr(...)`, and the rest.
  unfoldable pub nfq_with_header :
      Moment → Queued → Option ℕ → Option (List ℕ) → Session F U G → ℤ × Session F U G
  unfolding nfq_hdr nfq_decide
  nfq_with_header m q none payload s = no_header s
  nfq_with_header m q (some id) none s = no_header s
  nfq_with_header m q (some id) (some pkt) s =
      nfq_decide m id (nfq_hdr m s.impl.snaplen q (length pkt)) pkt s

  -- `daq_nfq_callback`.
  unfoldable pub daq_nfq_callback : Moment → Session F U G → Queued → ℤ × Session F U G
  unfolding nfq_with_header nfq_payload
  daq_nfq_callback m s q =
      if s.impl.state == state_started
      then nfq_with_header m q q.packet_id (nfq_payload q.payload) s
      else (negsuc 0, s)

  abbrev pub nfq_error : Session F U G → CString → CString → Session F U G
  nfq_error s what strerror = record s {
    impl = set_error s.impl (codes "nfq_daq_acquire: " ++ (what ++ (codes " = " ++ strerror)));
  }

  -- recv stores the bytes at the start of the buffer.
  unfoldable pub receive : Session F U G → List ℕ → Session F U G
  receive s bytes = elim s.impl.buf [
    | none ↦ s
    | some old ↦ record s { impl = record s.impl { buf = some (bytes ++ drop (length bytes) old) } }
  ]

  abbrev pub seen_one : Session F U G → Session F U G
  seen_one s = record s { impl = record s.impl { stats = count_seen s.impl.stats } }

  module _
      (nfq_handle_packet : (Session F U G → Queued → ℤ × Session F U G)
        → List ℕ
        → Session F U G
        → ℤ × Session F U G) where
    -- The loop: its code when it has ended.
    unfoldable pub acquire_loop : List Round → ℕ → Session F U G → Option ℤ × Session F U G
    unfolding goes_on daq_nfq_callback receive
    acquire_loop [] n s = if goes_on s.impl.count n then (none, s) else (some (pos 0), s)
    acquire_loop (Round.select_interrupted ∷ rs) n s = (some (pos 0), s)
    acquire_loop (Round.select_failed text ∷ rs) n s =
        if goes_on s.impl.count n
        then (some daq_error, nfq_error s (codes "select") text)
        else (some (pos 0), s)
    acquire_loop (Round.timed_out ∷ rs) n s =
        let rest = acquire_loop rs n s in if goes_on s.impl.count n then rest else (some (pos 0), s)
    acquire_loop (Round.arrived m [] ∷ rs) n s =
        let rest = acquire_loop rs n s in if goes_on s.impl.count n then rest else (some (pos 0), s)
    acquire_loop (Round.arrived m (b ∷ bytes) ∷ rs) n s =
        let got = take nfq_buf_size (b ∷ bytes) in
        let (stat, s') = nfq_handle_packet (daq_nfq_callback m) got (receive s got) in
        let rest = acquire_loop rs (suc n) (seen_one s') in
        if goes_on s.impl.count n
        then (if negative stat
            then (some daq_error, nfq_error (seen_one s') (codes "nfq_handle_packet") m.strerror)
            else rest)
        else (some (pos 0), s)

    -- `nfq_daq_acquire`.
    unfoldable pub nfq_daq_acquire :
        ℤ → Option U → List Round → Session F U G → Option ℤ × Session F U G
    unfolding count_of acquire_loop
    nfq_daq_acquire cnt user rounds s =
        acquire_loop rounds 0
          (record s { impl = record s.impl { count = count_of cnt; user_data = user } })
