-- ===== src/Nfq/Forwarding.antt =====
-- os-daq-modules/daq_nfq.c: `nfq_daq_acquire` does what the description says.
use libdaq.Prelude.{
  ℕ, zero, suc, ℤ, pos, negsuc, CString, List, ◌++◌, length, Option, ◌==◌, ◌≡◌, refl, arith,
}
use libdaq.Common.{Stats, max_daq_verdict, state_started}
use libdaq.Ipfw.Acquire.{count_of}
use libdaq.Counting.{Counted}
use libdaq.Netfilter.{Analysis}
use libdaq.Netfilter.Limits.{limit_of}
use libdaq.Nfq.Acquire.{Queued, Round, Session, nfq_daq_acquire}
use libdaq.Nfq.Decisions.{
  Unbroken, ending, taken, cut_off, counted_if, kernel_verdicts, verdicts_of, decide,
}
use libdaq.Nfq.Loop.{loop-Does}

module _ {F U G : Type 0} (filter : F → List ℕ → ℕ → ℕ) (callback : Analysis U G)
    (nfq_handle_packet : (Session F U G → Queued → ℤ × Session F U G)
      → List ℕ
      → Session F U G
      → ℤ × Session F U G)
    (packet : List ℕ → Queued)
    (hands_over : (f : Session F U G → Queued → ℤ × Session F U G) (bytes : List ℕ)
        (s : Session F U G)
      → nfq_handle_packet f bytes s ≡ f s (packet bytes)) where
  abbrev begun : ℤ → Option U → Session F U G → Session F U G
  begun cnt user s = record s { impl = record s.impl { count = count_of cnt; user_data = user } }

  -- If libnetfilter_queue calls back once for each datagram and returns what the callback returns, there is
  -- a counter for each verdict, and nobody breaks the loop, then whatever select and recv answer and whatever count is asked for
  -- `nfq_daq_acquire` ends with the code of the description: 0 once as many packets as asked for came or select
  -- is interrupted, DAQ_ERROR if select fails or a datagram is no use (its packet has no number or no
  -- bytes, or the instance is not started), and none only when the rounds do not suffice; a count of 0 or less
  -- is no limit. Each other packet gets one verdict, in order: NF_ACCEPT if the mode is passive, the
  -- filter keeps the packet back or the application lets it pass, else NF_DROP, with the bytes that the
  -- application leaves, at most the snap length, if it replaces the packet. The counters go up by as many as
  -- there are, modulo 2^64, and the datagram that is no use is counted as received by the hardware.
  -- But for the counters, the buffer, the count, the user pointer and the error text the instance
  -- stays the same.
  pub nfq_acquire_lem :
      (cnt : ℤ) (user : Option U) (rs : List Round) (s : Session F U G)
      → Unbroken rs
      → length s.impl.stats.verdicts ≡ max_daq_verdict
      → let (code, s') = nfq_daq_acquire filter callback nfq_handle_packet cnt user rs s in
        let started = s.impl.state == state_started in
        let ps = taken packet started (limit_of cnt) rs in
        let (last, ds) = decide filter callback user s.impl.fcode s.impl.snaplen s.app ps in
        (code ≡ ending packet started (limit_of cnt) rs)
        × ((st : Stats) × (buf : Option (List ℕ)) × (error : CString) × (s' ≡ record {
          impl = record s.impl {
            count = count_of cnt;
            user_data = user;
            stats = counted_if (cut_off packet started (limit_of cnt) rs) st;
            buf = buf;
            error = error;
          };
          app = last;
          given = s.given ++ kernel_verdicts s.impl.passive ds;
        })
            × Counted (length ps) s.impl.stats st (verdicts_of ds))
  unfolding nfq_daq_acquire count_of
  nfq_acquire_lem (pos zero) user rs s unbroken sized =
      loop-Does filter callback nfq_handle_packet packet hands_over (s.impl.state == state_started)
        rs (limit_of (pos 0)) 0 (begun (pos 0) user s) refl tt unbroken sized
  nfq_acquire_lem (pos (suc n)) user rs s unbroken sized =
      loop-Does filter callback nfq_handle_packet packet hands_over (s.impl.state == state_started)
        rs (limit_of (pos (suc n))) 0 (begun (pos (suc n)) user s) refl (omega arith) unbroken sized
  nfq_acquire_lem (negsuc n) user rs s unbroken sized =
      loop-Does filter callback nfq_handle_packet packet hands_over (s.impl.state == state_started)
        rs (limit_of (negsuc n)) 0 (begun (negsuc n) user s) refl tt unbroken sized
