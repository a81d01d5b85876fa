-- ===== src/Afpacket/Limit.antt =====
-- os-daq-modules/daq_afpacket.c: the whole of `afpacket_daq_acquire` over sound rings.
use libdaq.Prelude.{
  ℕ, zero, suc, ◌+◌, ◌%◌, ◌^◌, ◌≤◌, ℤ, pos, CString, List, Option, none, some, Bool, false, ◌&&◌,
  not, ltb, ltb→lt, ◌≡◌, ◌⊎◌, refl, ap, ◌∙◌, arith, Bool-cases, inl, inr,
}
use libdaq.Common.{daq_error}
use libdaq.Module.{Callback}
use libdaq.Afpacket.Peers.{Instance, Context}
use libdaq.Afpacket.Analyse.{set_error, Walk, Pass}
use libdaq.Afpacket.Acquire.{
  Polled, Outcome, visit, bad_socket, after_poll, wants_more, pass, after_pass, acquire_loop,
  afpacket_daq_acquire,
}
use libdaq.Afpacket.Safety.{SoundAll}
use libdaq.Afpacket.Handle.{Good}
use libdaq.Afpacket.Passes.{GoodPass, visit_lem}

-- DAQ_SUCCESS or DAQ_ERROR.
abbrev pub IsReturn : ℤ → Type 0
IsReturn code = (code ≡ pos 0) ⊎ (code ≡ daq_error)

abbrev pub state_of : {U : Type 0} → Outcome U → Walk U
state_of (Outcome.returned code w) = w
state_of (Outcome.running w) = w

abbrev pub Returns : {U : Type 0} → Outcome U → Type 0
Returns (Outcome.returned code w) = IsReturn code
Returns (Outcome.running w) = Unit

module _ {U : Type 0} (sfbpf_filter : ℕ → List ℕ → ℕ → ℕ → ℕ) (callback : Option (Callback U))
    (breaks : U → Bool) (limit : ℕ) (inline : Bool) (n base : ℕ) where
  -- What poll does to the state: an error text at most.
  abbrev Polls : ℕ → Option ℤ × Walk U → Type 0
  Polls bound (stop, w) =
      ((stop ≡ none) ⊎ ((code : ℤ) × (stop ≡ some code) × IsReturn code))
      × Good limit inline n base bound w

  with_error :
      (bound : ℕ) (w : Walk U) (text : CString)
      → Good limit inline n base bound w
      → Good limit inline n base bound (record w { afpc = set_error w.afpc text })
  with_error bound w text good = record {
    sound = good.sound;
    bounded = good.bounded;
    counted = good.counted;
  }

  events_lem :
      (bound : ℕ) (w : Walk U) (bad : Option CString)
      → Good limit inline n base bound w
      → Polls bound (elim bad [
        | none ↦ (none, w)
        | some text ↦ (some daq_error, record w { afpc = set_error w.afpc text })
      ])
  events_lem bound w none good = (inl refl, good)
  events_lem bound w (some text) good =
      (inr (daq_error, refl, inr refl), with_error bound w text good)

  poll_lem :
      (bound : ℕ) (polled : Polled) (w : Walk U)
      → Good limit inline n base bound w
      → Polls bound (after_poll sfbpf_filter callback breaks polled w)
  unfolding after_poll
  poll_lem bound (Polled.poll_failed text) w good =
      (inr (daq_error, refl, inr refl), with_error bound w text good)
  poll_lem bound Polled.poll_interrupted w good = (inl refl, good)
  poll_lem bound Polled.poll_timed_out w good = (inr (pos 0, refl, inl refl), good)
  poll_lem bound (Polled.poll_events rs) w good = events_lem bound w (bad_socket rs) good

  module _ (kernel : ℕ → List Instance → List Instance) (poll : ℕ → Polled)
      (fair : (k : ℕ) (is : List Instance)
        → SoundAll limit inline n is
        → SoundAll limit inline n (kernel k is))
      (m : ℕ) where
    after_pass_lem :
        (bound k : ℕ) (w : Walk U)
        → Good limit inline n base bound w
        → Polls bound (after_pass sfbpf_filter callback breaks kernel poll (pos (suc m)) k w)
    unfolding after_pass
    after_pass_lem bound k w good = elim (Bool-cases (not w.got_one && not w.ignored_one)) [
      | inl e ↦ rw e (poll_lem bound (poll k) w good)
      | inr e ↦ rw e (inl refl, good)
    ]

    pass_lem :
        (k : ℕ) (w : Walk U)
        → Good limit inline n base m w
        → (p : Pass U) × (pass sfbpf_filter callback breaks kernel poll (pos (suc m)) k w ≡ some p)
          × GoodPass sfbpf_filter callback breaks limit inline n base (m + n) p
    unfolding pass
    pass_lem k w good =
        let all = fair k w.afpc.instances good.sound in
        let start : Walk U = record w {
          afpc = record w.afpc { instances = kernel k w.afpc.instances };
          got_one = false;
          ignored_one = false;
        } in
        let (p, run, good') =
          visit_lem sfbpf_filter callback breaks limit inline n base n 0 m start
            (record { sound = all; bounded = good.bounded; counted = good.counted })
            (omega arith) in
        (p, ap (λ l. visit sfbpf_filter callback breaks l 0 start) all.0 ∙ run, good')

    abbrev Loops : Option (Outcome U) → Type 0
    Loops o =
        (r : Outcome U) × (o ≡ some r) × Returns r × Good limit inline n base (m + n) (state_of r)

    after_stop :
        (stop : Option ℤ) (w2 : Walk U) (rest : Option (Outcome U))
        → Polls (m + n) (stop, w2)
        → (Good limit inline n base (m + n) w2 → Loops rest)
        → Loops (elim stop [ none ↦ rest | some code ↦ some (Outcome.returned code w2) ])
    after_stop stop w2 rest (inl e, good) later = rw e (later good)
    after_stop stop w2 rest (inr (code, e, is), good) later =
        rw e (Outcome.returned code w2, refl, is, good)

    after_walk :
        (fuel k : ℕ) (p : Pass U)
        → GoodPass sfbpf_filter callback breaks limit inline n base (m + n) p
        → ((w : Walk U)
            → Good limit inline n base (m + n) w
            → Loops (
                acquire_loop sfbpf_filter callback breaks kernel poll (pos (suc m)) fuel (suc k) w))
        → Loops (elim p [
          | Pass.ended code w' ↦ some (Outcome.returned code w')
          | Pass.went w' ↦
              let (stop, w2) =
                after_pass sfbpf_filter callback breaks kernel poll (pos (suc m)) k w' in
              elim stop [
                | none ↦
                    acquire_loop sfbpf_filter callback breaks kernel poll
                      (pos (suc m))
                      fuel
                      (suc k)
                      w2
                | some code ↦ some (Outcome.returned code w2)
              ]
        ])
    after_walk fuel k (Pass.ended code w') (is, good) later =
        (Outcome.returned code w', refl, is, good)
    after_walk fuel k (Pass.went w') good later =
        let r = after_pass sfbpf_filter callback breaks kernel poll (pos (suc m)) k w' in
        after_stop r.0 r.1 _ (after_pass_lem (m + n) k w' good) (λ good'. later r.1 good')

    loop_lem :
        (fuel k : ℕ) (w : Walk U)
        → Good limit inline n base (m + n) w
        → Loops (acquire_loop sfbpf_filter callback breaks kernel poll (pos (suc m)) fuel k w)
    unfolding acquire_loop wants_more
    loop_lem zero k w good = elim (Bool-cases (ltb w.count (suc m))) [
      | inl e ↦ rw e (Outcome.running w, refl, tt, good)
      | inr e ↦ rw e (Outcome.returned (pos 0) w, refl, inl refl, good)
    ]
    loop_lem (suc fuel) k w good = elim (Bool-cases (ltb w.count (suc m))) [
      | inr e ↦ rw (acquire_loop, e) (Outcome.returned (pos 0) w, refl, inl refl, good)
      | inl e ↦
          let (p, run, good') = pass_lem k w (record {
            sound = good.sound;
            bounded = omega (arith, ltb→lt w.count (suc m) e);
            counted = good.counted;
          }) in
          rw (acquire_loop, e, run) (after_walk fuel k p good' (λ w' h. loop_lem fuel (suc k) w' h))
    ]

module _ {U : Type 0} (sfbpf_filter : ℕ → List ℕ → ℕ → ℕ → ℕ) (callback : Option (Callback U))
    (breaks : U → Bool) (limit : ℕ) (inline : Bool) (n : ℕ) where
  -- Where the kernel keeps the rings sound, `afpacket_daq_acquire` for `suc m` packets never leaves its
  -- rings and frames, whatever poll answers, in any number of passes: it has returned DAQ_SUCCESS or
  -- DAQ_ERROR or still runs, the rings are sound, it has given the application at most `m` packets
  -- and one for each of the `n` interfaces, and it has counted each of them as received, modulo 2^64.
  pub afpacket_acquire_lem :
      (kernel : ℕ → List Instance → List Instance) (poll : ℕ → Polled)
      → ((k : ℕ) (is : List Instance)
          → SoundAll limit inline n is
          → SoundAll limit inline n (kernel k is))
      → (m fuel : ℕ) (afpc : Context) (user : U) → SoundAll limit inline n afpc.instances
      → (r : Outcome U) × (afpacket_daq_acquire sfbpf_filter callback breaks kernel poll
            (pos (suc m))
            fuel
            afpc
            user
          ≡ some r)
        × Returns r
        × SoundAll limit inline n (state_of r).afpc.instances
        × ((state_of r).count ≤ m + n)
        × ((state_of r).afpc.stats.packets_received % 2 ^ 64
            ≡ (afpc.stats.packets_received + (state_of r).count) % 2 ^ 64)
  unfolding afpacket_daq_acquire
  afpacket_acquire_lem kernel poll fair m fuel afpc user all =
      let (r, run, is, good) =
        loop_lem sfbpf_filter callback breaks limit inline n afpc.stats.packets_received kernel poll
          fair m fuel 0
          (record { afpc = afpc; user = user; got_one = false; ignored_one = false; count = 0 })
          (record { sound = all; bounded = omega arith; counted = omega arith }) in
      (r, run, is, good.sound, good.bounded, good.counted)
