-- ===== src/Pcap/Acquire.antt =====
-- os-daq-modules/daq_pcap.c: `pcap_process_loop` and `pcap_daq_acquire`. What pcap_dispatch delivers
-- in a round is an argument; the result none is a NULL handle, or a loop that is still running.
use libdaq.Prelude.{
  ℕ, zero, suc, ◌+◌, ◌-◌, ◌%◌, ◌^◌, ℤ, pos, negsuc, eqb_ℤ, List, [], ◌∷◌, Option, none, some, Bool,
  true, ◌==◌, leb, ltb, if◌then◌else◌,
}
use libdaq.Common.{PktHdr, inc64, count_verdict, max_daq_verdict, verdict_pass, daq_readfile_eof}
use libdaq.Module.{Callback}
use libdaq.Pcap.{Libpcap, PcapStat, Context, set_error}
use libdaq.Pcap.Hardware.{update_hw_stats}

-- `struct pcap_pkthdr` and the data, with what pcap_stats would answer at that moment.
pub record Delivered : Type 0 where
  pub tv_sec : ℕ
  pub tv_usec : ℕ
  pub caplen : ℕ
  pub len : ℕ
  pub data' : List ℕ
  pub answer : Option PcapStat

-- One call of pcap_dispatch: the packets that it hands over, and what it returns.
pub record Dispatch : Type 0 where
  pub delivered : List Delivered
  pub ret : ℤ

-- The header that the application gets.
abbrev pub header_of : Delivered → PktHdr
header_of d = record {
  tv_sec = d.tv_sec;
  tv_usec = d.tv_usec;
  caplen = d.caplen;
  pktlen = d.len;
  ingress_index = negsuc 0;
  egress_index = negsuc 0;
  ingress_group = negsuc 0;
  egress_group = negsuc 0;
  flags = 0;
  address_space_id = 0;
}

-- DAQ_PCAP_ROLLOVER_LIM.
abbrev pub rollover_lim : ℕ
rollover_lim = 1_000_000_000

-- `if (verdict >= MAX_DAQ_VERDICT) verdict = DAQ_VERDICT_PASS;`
abbrev pub pcap_verdict : ℕ → ℕ
pcap_verdict v = if leb max_daq_verdict v then verdict_pass else v

abbrev pub count_packet : {P : Type 0} → Context P → Context P
count_packet context = record context {
  packets = suc context.packets;
  stats = record context.stats { packets_received = inc64 context.stats.packets_received };
}

abbrev pub count_pcap_verdict : {P : Type 0} → Context P → ℕ → Context P
count_pcap_verdict context v = record context {
  stats = record context.stats { verdicts = count_verdict context.stats.verdicts (pcap_verdict v) };
}

-- `context->packets < cnt || cnt <= 0`.
unfoldable pub goes_on : ℤ → ℕ → Bool
goes_on (pos zero) packets = true
goes_on (pos (suc n)) packets = ltb packets (suc n)
goes_on (negsuc n) packets = true

-- `(cnt <= 0) ? -1 : cnt - context->packets`.
unfoldable pub asked_for : ℤ → ℕ → ℤ
asked_for (pos zero) packets = negsuc 0
asked_for (pos (suc n)) packets = pos (suc n - packets)
asked_for (negsuc n) packets = negsuc 0

module _ {P F : Type 0} (pcap : Libpcap P F) where
  -- `if (context->hwupdate_count++ == DAQ_PCAP_ROLLOVER_LIM) update_hw_stats(context);`
  unfoldable pub tick : Context P → Option PcapStat → Context P
  tick context answer =
      let next = record context { hwupdate_count = (context.hwupdate_count + 1) % 2 ^ 32 } in
      if context.hwupdate_count == rollover_lim then (update_hw_stats pcap next answer).1 else next

  module _ {U : Type 0} (callback : Callback U) where
    -- `pcap_process_loop`.
    unfoldable pub pcap_process_loop : Context P × U → Delivered → Context P × U
    unfolding tick
    pcap_process_loop (context, user) d =
        let context' = tick (count_packet context) d.answer in
        let (user', v, left) = callback user (header_of d) d.data' in
        (count_pcap_verdict context' v, user')

    unfoldable pub process_all : Context P × U → List Delivered → Context P × U
    unfolding pcap_process_loop
    process_all st [] = st
    process_all st (d ∷ ds) = process_all (pcap_process_loop st d) ds

    -- What follows a call of pcap_dispatch; `rest` is the loop's next rounds.
    unfoldable pub after_dispatch :
        P → Context P × U → ℤ → Option (ℤ × Context P × U) → Option (ℤ × Context P × U)
    after_dispatch p (context, user) ret rest =
        if eqb_ℤ ret (negsuc 0)
        then some (ret, set_error context (pcap.geterr p), user)
        else if eqb_ℤ ret (pos 0)
        then some (elim context.file [ none ↦ pos 0 | some f ↦ daq_readfile_eof ], context, user)
        else if eqb_ℤ ret (negsuc 1)
        then some (pos 0, context, user)
        else rest

    module _ (dispatch : ℕ → ℤ → Dispatch) (cnt : ℤ) where
      -- The loop, from its k-th round on.
      unfoldable pub acquire_loop : ℕ → ℕ → P → Context P × U → Option (ℤ × Context P × U)
      unfolding process_all after_dispatch
      acquire_loop zero k p st = if goes_on cnt st.0.packets then none else some (pos 0, st.0, st.1)
      acquire_loop (suc fuel) k p st =
          let d = dispatch k (asked_for cnt st.0.packets) in
          let st' = process_all st d.delivered in
          let rest = acquire_loop fuel (suc k) p st' in
          if goes_on cnt st.0.packets
          then after_dispatch p st' d.ret rest
          else some (pos 0, st.0, st.1)

      -- `pcap_daq_acquire`, in a number of rounds.
      unfoldable pub pcap_daq_acquire : ℕ → Context P → U → Option (ℤ × Context P × U)
      unfolding acquire_loop
      pcap_daq_acquire fuel context user = elim context.handle [
        | none ↦ none
        | some p ↦ acquire_loop fuel 0 p (record context { packets = 0 }, user)
      ]
