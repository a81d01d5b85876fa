-- ===== src/Ipfw/Packet.antt =====
-- os-daq-modules/daq_ipfw.c: what `ipfw_daq_acquire` makes of one packet in its buffer.
use libdaq.Prelude.{
  ℕ, List, [], ◌∷◌, ◌++◌, length, take, get_or, Option, none, some, true, false, ◌==◌, ◌||◌, not,
  ◌≡◌, refl, sym, ap, ◌∙◌, arith, Bool-cases, inl, inr,
}
use mathlib.Core.List.{append-nil}
use libdaq.Common.{inc64, count_verdict, max_daq_verdict, verdict_pass}
use libdaq.Counting.{Counted, count_filtered-Counted, count_asked-Counted}
use libdaq.Module.{in_place, take-in_place}
use libdaq.Ipfw.{IpfwImpl, ipfw_daq_forward}
use libdaq.Ipfw.Acquire.{
  Analysis, Received, Session, ipfw_fwd, set_pkt_hdr, ipfw_verdict, keeps_back, judge, send_back,
  handle_packet,
}
use libdaq.Ipfw.Decisions.{Decision, lets_pass, sent_back, verdicts_of}

-- A session in which `n` datagrams were handled: what was there before, and the decisions.
pub record Handled {F G : Type 0} (n : ℕ) (s s' : Session F G) (last : G) (ds : List Decision)
    : Type 0 where
  pub app : s'.app ≡ last
  pub wire : s'.wire ≡ s.wire ++ sent_back s.impl.passive ds
  pub counted : Counted n s.impl.stats s'.impl.stats (verdicts_of ds)

-- What no packet changes.
pub record Kept {F : Type 0} (impl impl' : IpfwImpl F) : Type 0 where
  pub passive : impl'.passive ≡ impl.passive
  pub fcode : impl'.fcode ≡ impl.fcode
  pub snaplen : impl'.snaplen ≡ impl.snaplen
  pub count : impl'.count ≡ impl.count
  pub counters : length impl'.stats.verdicts ≡ length impl.stats.verdicts

lets_pass_lem : (v : ℕ) → not (get_or ipfw_fwd (ipfw_verdict v) 0 == 0) ≡ lets_pass (some v)
lets_pass_lem v = ground arith

module _ {F U G : Type 0} (filter : F → List ℕ → ℕ → ℕ) (callback : Analysis U G) where
  -- After `send_back`: an error text, and what went out.
  record Sent (s s' : Session F G) (d : Decision) : Type 0 where
    impl : (text : List ℕ) × (s'.impl ≡ record s.impl { error = text })
    app : s'.app ≡ s.app
    wire : s'.wire ≡ s.wire ++ sent_back s.impl.passive (d ∷ [])

  send_back-Sent :
      (s : Session F G) (r : Received) (len v : ℕ) (bytes : List ℕ) (verdict : Option ℕ)
      → take len s.impl.buf ≡ bytes
      → not (get_or ipfw_fwd v 0 == 0) ≡ lets_pass verdict
      → Sent s (send_back filter callback s r len v) (record {
        packet = record { bytes = bytes; dest = s.impl.sin };
        sends = r.sends;
        verdict = verdict;
      })
  unfolding send_back sent_back ipfw_daq_forward
  send_back-Sent s r len v bytes verdict e same =
      elim (Bool-cases (s.impl.passive || lets_pass verdict)) [
        | inr h ↦
            rw (same, h)
              (record {
                impl = (s.impl.error, refl);
                app = refl;
                wire = rw (sent_back, h) (sym (append-nil s.wire));
              })
        | inl h ↦ elim (Bool-cases r.sends) [
          | inl sends ↦
              rw (same, h, sends, e)
                (record { impl = (s.impl.error, refl); app = refl; wire = rw (sent_back, h) refl })
          | inr sends ↦
              rw (same, h, sends)
                (record {
                  impl = (_, refl);
                  app = refl;
                  wire = rw (sent_back, h) (sym (append-nil s.wire));
                })
        ]
      ]

  -- One packet, whose bytes are in the buffer.
  pub record One (s s' : Session F G) (last : G) (d : Decision) : Type 0 where
    pub handled : Handled 1 s s' last (d ∷ [])
    pub kept : Kept s.impl s'.impl

  abbrev pub decided : Session F G → Received → List ℕ → Option ℕ → Decision
  decided s r bytes verdict = record {
    packet = record { bytes = bytes; dest = s.impl.sin };
    sends = r.sends;
    verdict = verdict;
  }

  pub kept_back-One :
      (s : Session F G) (r : Received) (len : ℕ) (bytes : List ℕ)
      → take len s.impl.buf ≡ bytes
      → r.breaks ≡ false
      → keeps_back filter callback s.impl.fcode bytes len ≡ true
      → One s (handle_packet filter callback s r len) s.app (decided s r bytes none)
  unfolding handle_packet judge verdicts_of
  kept_back-One s r len bytes e unbroken held =
      let stats = s.impl.stats in
      let s' : Session F G = record s {
        impl = record s.impl {
          stats = record stats {
            hw_packets_received = inc64 stats.hw_packets_received;
            packets_filtered = inc64 stats.packets_filtered;
          };
        };
      } in
      let sent = send_back-Sent s' r len verdict_pass bytes none e refl in
      let (text, same) = sent.impl in
      let judged : judge filter callback
            (record s {
              impl = record s.impl {
                stats = record stats { hw_packets_received = inc64 stats.hw_packets_received };
              };
            })
            r len
          ≡ (verdict_pass, s') =
        rw (judge, e, held, unbroken) refl in
      rw (handle_packet, judged)
        (record {
          handled = record {
            app = sent.app;
            wire = sent.wire;
            counted = rw same (count_filtered-Counted s.impl.stats);
          };
          kept = record {
            passive = rw same refl;
            fcode = rw same refl;
            snaplen = rw same refl;
            count = rw same refl;
            counters = rw same refl;
          };
        })

  pub asked-One :
      (s : Session F G) (r : Received) (len : ℕ) (bytes : List ℕ)
      → take len s.impl.buf ≡ bytes
      → r.breaks ≡ false
      → keeps_back filter callback s.impl.fcode bytes len ≡ false
      → length s.impl.stats.verdicts ≡ max_daq_verdict
      → let answer = callback none s.app (set_pkt_hdr r len) bytes in
        One s
          (handle_packet filter callback s r len)
          answer.0
          (decided s r (in_place bytes answer.2) (some answer.1))
  unfolding handle_packet judge verdicts_of
  asked-One s r len bytes e unbroken held sized =
      let stats = s.impl.stats in
      let answer = callback none s.app (set_pkt_hdr r len) bytes in
      let v = ipfw_verdict answer.1 in
      let s' : Session F G = record s {
        impl = record s.impl {
          stats = record stats {
            hw_packets_received = inc64 stats.hw_packets_received;
            verdicts = count_verdict stats.verdicts v;
            packets_received = inc64 stats.packets_received;
          };
          buf = in_place s.impl.buf answer.2;
        };
        app = answer.0;
      } in
      let e' : take len (in_place s.impl.buf answer.2) ≡ in_place bytes answer.2 =
        take-in_place len s.impl.buf answer.2 ∙ ap (λ bs. in_place bs answer.2) e in
      let sent =
        send_back-Sent s' r len v (in_place bytes answer.2) (some answer.1) e'
          (lets_pass_lem answer.1) in
      let (text, same) = sent.impl in
      let judged : judge filter callback
            (record s {
              impl = record s.impl {
                stats = record stats { hw_packets_received = inc64 stats.hw_packets_received };
              };
            })
            r len
          ≡ (v, s') =
        rw (judge, e, held, unbroken) refl in
      rw (handle_packet, judged)
        (record {
          handled = record {
            app = sent.app;
            wire = sent.wire;
            counted = rw same (count_asked-Counted answer.1 s.impl.stats sized);
          };
          kept = record {
            passive = rw same refl;
            fcode = rw same refl;
            snaplen = rw same refl;
            count = rw same refl;
            counters = rw same ((count_asked-Counted answer.1 s.impl.stats sized).sized);
          };
        })
