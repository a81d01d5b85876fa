-- ===== src/Ipq/Forwarding.antt =====
-- os-daq-modules/daq_ipq.c: `ipq_daq_acquire` does what the description says.
use libdaq.Prelude.{
  ℕ, zero, suc, ℤ, pos, negsuc, CString, codes, List, [], ◌∷◌, ◌++◌, length, Option, none, some,
  Bool, true, false, if◌then◌else◌, ◌≡◌, refl, sym, ◌∙◌, arith, Bool-cases, inl, inr,
}
use mathlib.Core.Path.{subst}
use libdaq.Common.{daq_error, Stats, max_daq_verdict}
use libdaq.Ipfw.Acquire.{count_of}
use libdaq.Counting.{Counted}
use libdaq.Netfilter.{Analysis}
use libdaq.Nfq.Decisions.{verdicts_of}
use libdaq.Netfilter.Limits.{has_more, one_less, limit_of, Left, goes_on_lem, Left-one_less}
use libdaq.Ipq.Acquire.{IpqRound, IpqSession, ipq_loop, ipq_error, ipq_daq_acquire}
use libdaq.Ipq.Decisions.{IpqArrival, ending, taken, ipq_verdicts, ipq_decide, Unbroken}
use libdaq.Ipq.Packet.{Handled, Handled-nil, ipq_handle-Handled, after_one, Handled-cons}

module _ {F U G : Type 0} (filter : F → List ℕ → ℕ → ℕ) (callback : Analysis U G)
    (user : Option U) where
  abbrev Gives : Option ℤ → List IpqArrival → IpqSession F G → Option ℤ × IpqSession F G → Type 0
  Gives code ps s end = (end.0 ≡ code) × Handled filter callback user ps s end.1

  either_way :
      (b : Bool) (s : IpqSession F G) (code code' : Option ℤ) (ps ps' : List IpqArrival)
      (end end' : Option ℤ × IpqSession F G)
      → Gives code ps s end
      → Gives code' ps' s end'
      → Gives (if b then code else code') (if b then ps else ps') s (if b then end else end')
  either_way true s code code' ps ps' end end' h k = h
  either_way false s code code' ps ps' end end' h k = k

  abbrev Does : Option ℕ → List IpqRound → IpqSession F G → Option ℤ × IpqSession F G → Type 0
  Does left rs s end = Gives (ending left rs) (taken left rs) s end

  Handled-same : (s : IpqSession F G) → Handled filter callback user [] s s
  Handled-same s = Handled-nil filter callback user s s.impl.error

  -- Another error text before the packets.
  Handled-after_error :
      (ps : List IpqArrival) (s s2 : IpqSession F G) (text : CString)
      → Handled filter callback user ps (record s { impl = record s.impl { error = text } }) s2
      → Handled filter callback user ps s s2
  Handled-after_error ps s s2 text h = h

  ipq_loop-Does :
      (rs : List IpqRound) (left : Option ℕ) (n : ℕ) (s : IpqSession F G)
      → Left s.impl.count n left
      → Unbroken rs
      → length s.impl.stats.verdicts ≡ max_daq_verdict
      → Does left rs s (ipq_loop filter callback user rs n s)
  unfolding ipq_loop ending taken
  ipq_loop-Does [] left n s l unbroken sized =
      let go = goes_on_lem s.impl.count n left l in
      elim (Bool-cases (has_more left)) [
        | inl more ↦ rw (go, more) (refl, Handled-same s)
        | inr more ↦ rw (go, more) (refl, Handled-same s)
      ]
  ipq_loop-Does (IpqRound.read_failed text ∷ rs) left n s l unbroken sized =
      let go = goes_on_lem s.impl.count n left l in
      elim (Bool-cases (has_more left)) [
        | inl more ↦ rw (go, more) (refl, Handled-nil filter callback user s _)
        | inr more ↦ rw (go, more) (refl, Handled-same s)
      ]
  ipq_loop-Does (IpqRound.nothing ∷ rs) left n s l unbroken sized = (refl, Handled-same s)
  ipq_loop-Does (IpqRound.other_message text ∷ rs) left n s l unbroken sized =
      let go = goes_on_lem s.impl.count n left l in
      let rest = ipq_loop-Does rs left n _ l unbroken sized in
      elim (Bool-cases (has_more left)) [
        | inl more ↦ rw (go, more) rest
        | inr more ↦ rw (go, more) (refl, Handled-same s)
      ]
  ipq_loop-Does (IpqRound.queued m p ∷ rs) left n s l (whole, unbroken) sized =
      let go = goes_on_lem s.impl.count n left l in
      let a : IpqArrival = record { moment = m; packet = p } in
      let (st, error, e, counted) = ipq_handle-Handled filter callback user m p s whole sized in
      elim (Bool-cases (has_more left)) [
        | inr more ↦ rw (go, more) (refl, Handled-same s)
        | inl more ↦
            let s1 = after_one filter callback user a s st error in
            let later = taken (one_less left) rs in
            let next = Left-one_less s.impl.count n left l more in
            let (code, handled) =
              ipq_loop-Does rs (one_less left) (suc n) s1 next unbroken (counted.sized ∙ sized) in
            let round = λ (s' : IpqSession F G).
              Gives (if m.accepts then ending (one_less left) rs else some daq_error)
                (if m.accepts then a ∷ later else a ∷ []) s
                (if m.accepts then ipq_loop filter callback user rs (suc n) s' else (
                  some daq_error,
                  ipq_error filter callback s' (codes "ipq_set_verdict=") m.errstr,
                )) in
            let end = ipq_loop filter callback user rs (suc n) s1 in
            let failed = ipq_error filter callback s1 (codes "ipq_set_verdict=") m.errstr in
            rw (go, more)
              (subst round (sym e) (
                either_way m.accepts s (ending (one_less left) rs) (some daq_error) (a ∷ later)
                  (a ∷ []) end (some daq_error, failed)
                  (code, Handled-cons filter callback user a later s end.1 st error counted handled)
                  (refl, (st, failed.impl.error, refl, counted))))
      ]

  -- Whatever ipq_read answers and whatever count is asked for, if nobody breaks the loop and there is
  -- a counter for each verdict,
  -- `ipq_daq_acquire` ends with the code of the description: 0 once as many packets as asked for came or nothing
  -- is there in time, DAQ_ERROR as soon as ipq_read or ipq_set_verdict fails, and none only when the rounds
  -- do not suffice; a count of 0 or less is no limit and messages that are no packets are passed
  -- over. Each packet that is taken gets one verdict, in order: NF_ACCEPT if the mode is passive, the
  -- filter keeps the packet back or the application lets it pass, else NF_DROP, with the whole packet as
  -- the application leaves it if it replaces the packet in another mode. The counters go up by as many as
  -- there are, modulo 2^64, and but for them, the count and the error text the instance stays the same.
  pub ipq_acquire_lem :
      (cnt : ℤ) (rs : List IpqRound) (s : IpqSession F G)
      → Unbroken rs
      → length s.impl.stats.verdicts ≡ max_daq_verdict
      → let (code, s') = ipq_daq_acquire filter callback cnt user rs s in
        let ps = taken (limit_of cnt) rs in
        let (last, ds) = ipq_decide filter callback user s.impl.fcode s.impl.snaplen s.app ps in
        (code ≡ ending (limit_of cnt) rs)
        × ((st : Stats) × (error : CString) × (s' ≡ record {
          impl = record s.impl { count = count_of cnt; stats = st; error = error };
          app = last;
          given = s.given ++ ipq_verdicts s.impl.passive ds;
        })
            × Counted (length ps) s.impl.stats st (verdicts_of ds))
  unfolding ipq_daq_acquire count_of
  ipq_acquire_lem (pos zero) rs s unbroken sized =
      ipq_loop-Does rs none 0 (record s { impl = record s.impl { count = negsuc 0 } }) tt unbroken
        sized
  ipq_acquire_lem (pos (suc n)) rs s unbroken sized =
      ipq_loop-Does rs (some (suc n)) 0 (record s { impl = record s.impl { count = pos (suc n) } })
        (omega arith) unbroken sized
  ipq_acquire_lem (negsuc n) rs s unbroken sized =
      ipq_loop-Does rs none 0 (record s { impl = record s.impl { count = negsuc n } }) tt unbroken
        sized
