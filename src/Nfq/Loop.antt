-- ===== src/Nfq/Loop.antt =====
-- os-daq-modules/daq_nfq.c: the loop of `nfq_daq_acquire` round by round.
use libdaq.Prelude.{
  ℕ, suc, ℤ, pos, negsuc, List, [], ◌∷◌, length, take, Option, some, Bool, true, false, ◌==◌, codes,
  ◌≡◌, refl, sym, ap, ◌∙◌, Bool-cases, inl, inr,
}
use mathlib.Core.Path.{subst}
use libdaq.Common.{max_daq_verdict, state_started, daq_error}
use libdaq.Ipfw.Acquire.{goes_on}
use libdaq.Counting.{count_seen}
use libdaq.Netfilter.{Analysis}
use libdaq.Netfilter.Limits.{has_more, one_less, Left, goes_on_lem, Left-one_less}
use libdaq.Nfq.Init.{nfq_buf_size}
use libdaq.Nfq.Acquire.{
  Queued, Moment, Round, Session, daq_nfq_callback, receive, seen_one, nfq_error, acquire_loop,
}
use libdaq.Nfq.Decisions.{
  Arrival, Unbroken, whole, incoming, usable, ending, taken, cut_off, kernel_verdicts,
}
use libdaq.Nfq.Packet.{after, told}
use libdaq.Nfq.Runs.{callback-Answered, callback-Refused, received, received_into}
use libdaq.Nfq.Handled.{Gives, Handled-nil, Handled-same, after_one, Handled-cons}

module _ {F U G : Type 0} (filter : F → List ℕ → ℕ → ℕ) (callback : Analysis U G) where
  module _
      (nfq_handle_packet : (Session F U G → Queued → ℤ × Session F U G)
        → List ℕ
        → Session F U G
        → ℤ × Session F U G)
      (packet : List ℕ → Queued)
      (hands_over : (f : Session F U G → Queued → ℤ × Session F U G) (bytes : List ℕ)
          (s : Session F U G)
        → nfq_handle_packet f bytes s ≡ f s (packet bytes)) where
    abbrev loop : List Round → ℕ → Session F U G → Option ℤ × Session F U G
    loop = acquire_loop filter callback nfq_handle_packet

    abbrev stored : Session F U G → ℕ → List ℕ → Session F U G
    stored s b bytes = receive filter callback s (take nfq_buf_size (b ∷ bytes))

    -- A round that ends well.
    one_round :
        (m : Moment) (b : ℕ) (bytes : List ℕ) (rest : List Round) (n : ℕ) (s s' : Session F U G)
        → goes_on s.impl.count n ≡ true
        → daq_nfq_callback filter callback m (stored s b bytes) (incoming packet true b bytes)
          ≡ (pos 0, s')
        → loop (Round.arrived m (b ∷ bytes) ∷ rest) n s
          ≡ loop rest (suc n) (seen_one filter callback s')
    unfolding acquire_loop
    one_round m b bytes rest n s s' go e = rw (acquire_loop, go, hands_over _ _ _, e) refl

    -- A round that does not.
    last_round :
        (m : Moment) (b : ℕ) (bytes : List ℕ) (rest : List Round) (n : ℕ) (s s' : Session F U G)
        → goes_on s.impl.count n ≡ true
        → daq_nfq_callback filter callback m (stored s b bytes) (incoming packet true b bytes)
          ≡ (negsuc 0, s')
        → loop (Round.arrived m (b ∷ bytes) ∷ rest) n s ≡ (
          some daq_error,
          nfq_error filter callback
              (seen_one filter callback s')
              (codes "nfq_handle_packet")
              m.strerror,
        )
    unfolding acquire_loop
    last_round m b bytes rest n s s' go e = rw (acquire_loop, go, hands_over _ _ _, e) refl

    abbrev Does : Bool → Option ℕ → List Round → Session F U G → Option ℤ × Session F U G → Type 0
    Does started left rs s end =
        Gives filter callback (ending packet started left rs) (cut_off packet started left rs)
          (taken packet started left rs) s end

    -- What is left to show of the rounds behind the first.
    abbrev Later : Bool → Option ℕ → List Round → ℕ → Session F U G → Type 0
    Later started left rs n s =
        (s' : Session F U G)
        → s'.impl.state ≡ s.impl.state
        → s'.impl.count ≡ s.impl.count
        → length s'.impl.stats.verdicts ≡ length s.impl.stats.verdicts
        → Does started (one_less left) rs s' (loop rs (suc n) s')

    answered_round :
        (m : Moment) (b : ℕ) (bytes : List ℕ) (rs : List Round) (left : Option ℕ) (n : ℕ)
        (s : Session F U G)
        → (s.impl.state == state_started) ≡ true
        → whole (incoming packet true b bytes) ≡ true
        → goes_on s.impl.count n ≡ true
        → m.breaks ≡ false
        → length s.impl.stats.verdicts ≡ max_daq_verdict
        → Later true left rs n s
        → Gives filter callback
            (ending packet true (one_less left) rs)
            (cut_off packet true (one_less left) rs)
            (record { moment = m; queued = incoming packet true b bytes }
              ∷ taken packet true (one_less left) rs)
            s
            (loop (Round.arrived m (b ∷ bytes) ∷ rs) n s)
    answered_round m b bytes rs left n s state is go unbroken sized later =
        let q = incoming packet true b bytes in
        let a : Arrival = record { moment = m; queued = q } in
        let (buf, same) = received filter callback s (take nfq_buf_size (b ∷ bytes)) in
        let (st, e, counted) =
          callback-Answered filter callback m q (received_into filter callback s buf) unbroken state
            is sized in
        let (mid, ds) = told filter callback s (a ∷ []) in
        let s1 = after s st buf mid (kernel_verdicts s.impl.passive ds) in
        let s2 = after_one filter callback a s (count_seen st) buf in
        let (code, handled) = later s2 refl refl counted.sized in
        rw (one_round m b bytes rs n s s1 go (rw same e))
          (code, Handled-cons filter callback _ a _ s _ (count_seen st) buf counted handled)

    refused_round :
        (started : Bool) (m : Moment) (b : ℕ) (bytes : List ℕ) (rs : List Round) (n : ℕ)
        (s : Session F U G)
        → (s.impl.state == state_started) ≡ started
        → usable packet started b bytes ≡ false
        → goes_on s.impl.count n ≡ true
        → Gives filter callback
            (some daq_error)
            true
            []
            s
            (loop (Round.arrived m (b ∷ bytes) ∷ rs) n s)
    refused_round started m b bytes rs n s state is go =
        let q = incoming packet true b bytes in
        let (buf, same) = received filter callback s (take nfq_buf_size (b ∷ bytes)) in
        let s1 = received_into filter callback s buf in
        let (error, e) = callback-Refused filter callback m q s1 started state is in
        let s2 : Session F U G = record s1 { impl = record s1.impl { error = error } } in
        rw (last_round m b bytes rs n s s2 go (rw same e))
          (refl, Handled-nil filter callback s true buf _)

    pub loop-Does :
        (started : Bool) (rs : List Round) (left : Option ℕ) (n : ℕ) (s : Session F U G)
        → (s.impl.state == state_started) ≡ started
        → Left s.impl.count n left
        → Unbroken rs
        → length s.impl.stats.verdicts ≡ max_daq_verdict
        → Does started left rs s (loop rs n s)
    unfolding acquire_loop ending taken cut_off
    loop-Does started [] left n s state l unbroken sized =
        let go = goes_on_lem s.impl.count n left l in
        elim (Bool-cases (has_more left)) [
          | inl more ↦ rw (go, more) (refl, Handled-same filter callback s)
          | inr more ↦ rw (go, more) (refl, Handled-same filter callback s)
        ]
    loop-Does started (Round.select_interrupted ∷ rs) left n s state l unbroken sized =
        (refl, Handled-same filter callback s)
    loop-Does started (Round.select_failed text ∷ rs) left n s state l unbroken sized =
        let go = goes_on_lem s.impl.count n left l in
        elim (Bool-cases (has_more left)) [
          | inl more ↦ rw (go, more) (refl, Handled-nil filter callback s false s.impl.buf _)
          | inr more ↦ rw (go, more) (refl, Handled-same filter callback s)
        ]
    loop-Does started (Round.timed_out ∷ rs) left n s state l unbroken sized =
        let go = goes_on_lem s.impl.count n left l in
        let rest = loop-Does started rs left n s state l unbroken sized in
        elim (Bool-cases (has_more left)) [
          | inl more ↦ rw (go, more) rest
          | inr more ↦ rw (go, more) (refl, Handled-same filter callback s)
        ]
    loop-Does started (Round.arrived m [] ∷ rs) left n s state l (calm, unbroken) sized =
        let go = goes_on_lem s.impl.count n left l in
        let rest = loop-Does started rs left n s state l unbroken sized in
        elim (Bool-cases (has_more left)) [
          | inl more ↦ rw (go, more) rest
          | inr more ↦ rw (go, more) (refl, Handled-same filter callback s)
        ]
    loop-Does false (Round.arrived m (b ∷ bytes) ∷ rs) left n s state l (calm, unbroken) sized =
        let go = goes_on_lem s.impl.count n left l in
        elim (Bool-cases (has_more left)) [
          | inr more ↦ rw (go, more) (refl, Handled-same filter callback s)
          | inl more ↦ rw more (refused_round false m b bytes rs n s state refl (go ∙ more))
        ]
    loop-Does true (Round.arrived m (b ∷ bytes) ∷ rs) left n s state l (calm, unbroken) sized =
        let go = goes_on_lem s.impl.count n left l in
        elim (Bool-cases (has_more left)) [
          | inr more ↦ rw (go, more) (refl, Handled-same filter callback s)
          | inl more ↦ elim (Bool-cases (whole (incoming packet true b bytes))) [
            | inr no_use ↦
                rw (more, no_use) (refused_round true m b bytes rs n s state no_use (go ∙ more))
            | inl is ↦
                let next = Left-one_less s.impl.count n left l more in
                rw (more, is)
                  (answered_round m b bytes rs left n s state is (go ∙ more) calm sized
                    (λ s' same count counters.
                      loop-Does true rs (one_less left) (suc n) s'
                        (ap (λ k. k == state_started) same ∙ state)
                        (subst (λ c. Left c (suc n) (one_less left)) (sym count) next) unbroken
                        (counters ∙ sized)))
          ]
        ]
