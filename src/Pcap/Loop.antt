-- ===== src/Pcap/Loop.antt =====
-- os-daq-modules/daq_pcap.c: `pcap_daq_acquire` with a limit ends.
use libdaq.Prelude.{
  ℕ, zero, suc, ◌+◌, ◌-◌, ◌%◌, ◌^◌, ◌≤◌, ◌<◌, ℤ, pos, negsuc, CString, List, [], ◌∷◌, length,
  Option, none, some, false, ◌==◌, ltb, le→ltb, ◌≡◌, ◌⊎◌, inl, inr, refl, ◌∙◌, arith, Bool-cases,
  elim_some,
}
use libdaq.Common.{daq_success, daq_readfile_eof}
use libdaq.Module.{Callback}
use libdaq.Pcap.{Libpcap, PcapStat, Context}
use libdaq.Pcap.Hardware.{take_stats, read_stats, update_hw_stats}
use libdaq.Pcap.Acquire.{
  Delivered, Dispatch, rollover_lim, count_packet, goes_on, asked_for, tick, pcap_process_loop,
  process_all, after_dispatch, acquire_loop, pcap_daq_acquire,
}

-- What the documentation says of pcap_dispatch with a limit: it hands over at most that many
-- packets, and returns how many, or PCAP_ERROR, or PCAP_ERROR_BREAK.
abbrev pub Obeys : (ℕ → ℤ → Dispatch) → Type 0
Obeys dispatch =
    (k n : ℕ)
    → (length (dispatch k (pos n)).delivered ≤ n)
      × (((dispatch k (pos n)).ret ≡ pos (length (dispatch k (pos n)).delivered))
          ⊎ (((dispatch k (pos n)).ret ≡ negsuc 0) ⊎ ((dispatch k (pos n)).ret ≡ negsuc 1)))

-- The codes of `pcap_daq_acquire`.
abbrev pub IsCode : ℤ → Type 0
IsCode code = (code ≡ pos 0) ⊎ ((code ≡ negsuc 0) ⊎ (code ≡ daq_readfile_eof))

-- Between two contexts, `n` packets were handed over.
record Took {P : Type 0} (n : ℕ) (c c' : Context P) : Type 0 where
  packets : c'.packets ≡ c.packets + n
  received : c'.stats.packets_received % 2 ^ 64 ≡ (c.stats.packets_received + n) % 2 ^ 64

module _ {P F : Type 0} (pcap : Libpcap P F) where
  read_stats_lem :
      (c : Context P) (p : P) (answer : Option PcapStat)
      → ((read_stats pcap c p answer).1.packets ≡ c.packets)
        × ((read_stats pcap c p answer).1.stats.packets_received ≡ c.stats.packets_received)
  unfolding read_stats take_stats
  read_stats_lem c p none = (refl, refl)
  read_stats_lem c p (some ps) = (refl, refl)

  update_lem :
      (c : Context P) (answer : Option PcapStat) (h : Option P) (d : Option CString)
      → let r : ℤ × Context P = elim h [
        | none ↦ (daq_success, c)
        | some p ↦ elim d [ none ↦ (daq_success, c) | some device ↦ read_stats pcap c p answer ]
      ] in
        (r.1.packets ≡ c.packets) × (r.1.stats.packets_received ≡ c.stats.packets_received)
  update_lem c answer none d = (refl, refl)
  update_lem c answer (some p) none = (refl, refl)
  update_lem c answer (some p) (some d) = read_stats_lem c p answer

  tick_lem :
      (c : Context P) (answer : Option PcapStat)
      → ((tick pcap c answer).packets ≡ c.packets)
        × ((tick pcap c answer).stats.packets_received ≡ c.stats.packets_received)
  unfolding tick update_hw_stats
  tick_lem c answer = elim (Bool-cases (c.hwupdate_count == rollover_lim)) [
    | inr e ↦ rw e (refl, refl)
    | inl e ↦ rw e (
        update_lem (record c { hwupdate_count = (c.hwupdate_count + 1) % 2 ^ 32 }) answer c.handle
          c.device)
  ]

  module _ {U : Type 0} (callback : Callback U) where
    process-Took :
        (st : Context P × U) (d : Delivered) → Took 1 st.0 (pcap_process_loop pcap callback st d).0
    unfolding pcap_process_loop
    process-Took (c, user) d =
        let (same, same') = tick_lem (count_packet c) d.answer in
        record { packets = omega (arith, same); received = omega (arith, same') }

    process_all-Took :
        (st : Context P × U) (ds : List Delivered)
        → Took (length ds) st.0 (process_all pcap callback st ds).0
    unfolding process_all
    process_all-Took st [] = record { packets = omega arith; received = omega arith }
    process_all-Took st (d ∷ ds) =
        let one = process-Took st d in
        let rest = process_all-Took (pcap_process_loop pcap callback st d) ds in
        record {
          packets = omega (arith, one.packets, rest.packets);
          received = omega (arith, one.received, rest.received);
        }

    -- A result of the loop that began with context `c`, at most `limit` packets in all.
    abbrev Outcome : ℕ → Context P → Option (ℤ × Context P × U) → Type 0
    Outcome limit c r =
        (code : ℤ) × (c' : Context P) × (u' : U) × (r ≡ some (code, c', u'))
        × IsCode code
        × (c'.packets ≤ limit)
        × ((n : ℕ) × Took n c c')

    ends_now :
        (limit : ℕ) (code : ℤ) (c c' : Context P) (u' : U) (n : ℕ)
        → IsCode code
        → c'.packets ≤ limit
        → Took n c c'
        → Outcome limit c (some (code, c', u'))
    ends_now limit code c c' u' n is inside took = (code, c', u', refl, is, inside, (n, took))

    ends_later :
        (limit : ℕ) (c c' : Context P) (n : ℕ) (r : Option (ℤ × Context P × U))
        → Took n c c'
        → Outcome limit c' r
        → Outcome limit c r
    ends_later limit c c' n r took (code, c2, u', e, is, inside, (m, took')) = (
      code,
      c2,
      u',
      e,
      is,
      inside,
      (
        n + m,
        record {
          packets = omega (arith, took.packets, took'.packets);
          received = omega (arith, took.received, took'.received);
        },
      ),
    )

    eof-IsCode :
        (file : Option CString) → IsCode (elim file [ none ↦ pos 0 | some f ↦ daq_readfile_eof ])
    eof-IsCode none = inl refl
    eof-IsCode (some f) = inr (inr refl)

    suc_test : (n : ℕ) → (suc n == 0) ≡ false
    suc_test n = ground arith

    -- After a call that obeys, the loop ends or has fewer packets to wait for.
    dispatched :
        (limit n : ℕ) (p : P) (c : Context P) (st' : Context P × U) (ret : ℤ)
        (rest : Option (ℤ × Context P × U))
        → Took n c st'.0
        → st'.0.packets ≤ limit
        → (ret ≡ pos n) ⊎ ((ret ≡ negsuc 0) ⊎ (ret ≡ negsuc 1))
        → (0 < n → Outcome limit st'.0 rest)
        → Outcome limit c (after_dispatch pcap callback p st' ret rest)
    unfolding after_dispatch
    dispatched limit zero p c (c', u') ret rest took inside (inl e) later =
        rw e (ends_now limit _ c c' u' 0 (eof-IsCode c'.file) inside took)
    dispatched limit (suc n) p c (c', u') ret rest took inside (inl e) later =
        rw (e, suc_test n) (ends_later limit c c' (suc n) rest took (later (omega arith)))
    dispatched limit n p c (c', u') ret rest took inside (inr (inl e)) later = rw e (
        ends_now limit (negsuc 0) c _ u' n (inr (inl refl)) inside
          (record { packets = took.packets; received = took.received }))
    dispatched limit n p c (c', u') ret rest took inside (inr (inr e)) later =
        rw e (ends_now limit (pos 0) c c' u' n (inl refl) inside took)

    module _ (dispatch : ℕ → ℤ → Dispatch) (obeys : Obeys dispatch) (limit : ℕ) where
      -- With as many rounds as packets are wanted, the loop ends.
      acquire_loop_lem :
          (fuel k : ℕ) (p : P) (st : Context P × U)
          → st.0.packets ≤ suc limit
          → suc limit ≤ st.0.packets + fuel
          → Outcome
              (suc limit)
              st.0
              (acquire_loop pcap callback dispatch (pos (suc limit)) fuel k p st)
      unfolding acquire_loop goes_on asked_for
      acquire_loop_lem zero k p (c, u) inside enough =
          rw (le→ltb c.packets (suc limit) (omega (arith, enough))) (
            ends_now (suc limit) (pos 0) c c u 0 (inl refl) inside
              (record { packets = omega arith; received = omega arith }))
      acquire_loop_lem (suc fuel) k p (c, u) inside enough =
          elim (Bool-cases (ltb c.packets (suc limit))) [
            | inr e ↦ rw e (
                ends_now (suc limit) (pos 0) c c u 0 (inl refl) inside
                  (record { packets = omega arith; received = omega arith }))
            | inl e ↦
                let d = dispatch k (pos (suc limit - c.packets)) in
                let (few, answer) = obeys k (suc limit - c.packets) in
                let st' = process_all pcap callback (c, u) d.delivered in
                let took = process_all-Took (c, u) d.delivered in
                let inside' : st'.0.packets ≤ suc limit =
                  omega (arith, inside, few, took.packets) in
                rw e (
                  dispatched (suc limit) (length d.delivered) p c st' d.ret _ took inside' answer
                    (λ some_packet.
                      acquire_loop_lem fuel (suc k) p st' inside'
                        (omega (arith, enough, took.packets, some_packet))))
          ]

      -- If pcap_dispatch obeys its limit, `pcap_daq_acquire` for a positive number of packets on an open
      -- handle ends within as many rounds: its code is 0, -1 or DAQ_READFILE_EOF, it has taken no more
      -- packets than asked for, and it has counted as received those that it took, modulo 2^64.
      pub acquire_lem :
          (context : Context P) (p : P) (user : U)
          → context.handle ≡ some p
          → (code : ℤ) × (context' : Context P) × (user' : U) × (pcap_daq_acquire pcap callback
                dispatch
                (pos (suc limit))
                (suc limit)
                context
                user
              ≡ some (code, context', user'))
            × IsCode code
            × (context'.packets ≤ suc limit)
            × (context'.stats.packets_received % 2 ^ 64
                ≡ (context.stats.packets_received + context'.packets) % 2 ^ 64)
      unfolding pcap_daq_acquire
      acquire_lem context p user open' =
          let (code, c', u', run, is, inside, (n, took)) =
            acquire_loop_lem (suc limit) 0 p (record context { packets = 0 }, user) (omega arith)
              (omega arith) in
          (
            code,
            c',
            u',
            elim_some context.handle p none _ open' ∙ run,
            is,
            inside,
            omega (arith, took.packets, took.received),
          )
