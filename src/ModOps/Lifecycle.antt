-- ===== src/ModOps/Lifecycle.antt =====
-- One call moves the status of an instance forward only: initialized, started, stopped.
use libdaq.Prelude.{ℕ, ℤ, ◌≤◌, codes, List, [], Option, none, some, arith, Option-cases, inl, inr}
use libdaq.Common.{PktHdr, state_initialized, state_stopped}
use libdaq.Module.{Module, Callback, MetaCallback, DpKey, ChannelParams}
use libdaq.ModOps.{
  refuse, when_status, not_started, daq_start, daq_acquire, daq_acquire_with_meta, daq_breakloop,
  daq_stop,
}
use libdaq.ModOps.Query.{
  daq_reset_stats, daq_clear_error, daq_hup_prep, daq_hup_apply, daq_hup_post, daq_dp_add_dc,
}
use libdaq.ModOps.Calls.{Call, perform}
use libdaq.ModOps.Contract.{Contract, Moves}

module _ {C U : Type 0} (m : Module C U) (status : C → ℕ) (k : Contract m status) (c : C)
    (low : state_initialized ≤ status c) (high : status c ≤ state_stopped) where
  pub start-Moves : Moves status (status c) (perform Call.start (some m) (some c))
  unfolding perform daq_start when_status refuse
  start-Moves = elim (Option-cases m.start) [
    | inl e ↦ elim (Option-cases m.set_errbuf) [
      | inl e' ↦ ground (arith, k.reports)
      | inr (w, e') ↦ ground (
        arith,
        k.reports,
        k.writes w e' c (codes "Can't start an instance that isn't initialized!"),
      )
    ]
    | inr (f, e) ↦ elim (Option-cases m.set_errbuf) [
      | inl e' ↦ ground (arith, k.reports, k.starts f e c)
      | inr (w, e') ↦ ground (
        arith,
        k.reports,
        k.starts f e c,
        k.writes w e' c (codes "Can't start an instance that isn't initialized!"),
      )
    ]
  ]

  pub stop-Moves : Moves status (status c) (perform Call.stop (some m) (some c))
  unfolding perform daq_stop when_status refuse
  stop-Moves = elim (Option-cases m.stop) [
    | inl e ↦ elim (Option-cases m.set_errbuf) [
      | inl e' ↦ ground (arith, k.reports)
      | inr (w, e') ↦
          ground (
            arith,
            k.reports,
            k.writes w e' c (codes "Can't stop an instance that hasn't started!"),
          )
    ]
    | inr (f, e) ↦ elim (Option-cases m.set_errbuf) [
      | inl e' ↦ ground (arith, k.reports, k.stops f e c)
      | inr (w, e') ↦ ground (
        arith,
        k.reports,
        k.stops f e c,
        k.writes w e' c (codes "Can't stop an instance that hasn't started!"),
      )
    ]
  ]

  pub acquire-Moves :
      (n : ℤ) (g : Option (Callback U)) (u : U)
      → Moves status (status c) (perform (Call.acquire n g u) (some m) (some c))
  unfolding perform daq_acquire
  acquire-Moves n g u = elim (Option-cases m.acquire) [
    | inl e ↦ elim (Option-cases m.set_errbuf) [
      | inl e' ↦ ground (arith, k.reports)
      | inr (w, e') ↦ ground (arith, k.reports, k.writes w e' c not_started)
    ]
    | inr (f, e) ↦ elim (Option-cases m.set_errbuf) [
      | inl e' ↦ ground (arith, k.reports, k.acquires f e c u n g none)
      | inr (w, e') ↦
          ground (arith, k.reports, k.acquires f e c u n g none, k.writes w e' c not_started)
    ]
  ]

  pub acquire_with_meta-Moves :
      (n : ℤ) (g : Option (Callback U)) (g' : Option (MetaCallback U)) (u : U)
      → Moves status (status c) (perform (Call.acquire_with_meta n g g' u) (some m) (some c))
  unfolding perform daq_acquire_with_meta
  acquire_with_meta-Moves n g g' u = elim (Option-cases m.acquire) [
    | inl e ↦ elim (Option-cases m.set_errbuf) [
      | inl e' ↦ ground (arith, k.reports)
      | inr (w, e') ↦ ground (arith, k.reports, k.writes w e' c not_started)
    ]
    | inr (f, e) ↦ elim (Option-cases m.set_errbuf) [
      | inl e' ↦ ground (arith, k.reports, k.acquires f e c u n g g')
      | inr (w, e') ↦
          ground (arith, k.reports, k.acquires f e c u n g g', k.writes w e' c not_started)
    ]
  ]

  pub breakloop-Moves : Moves status (status c) (perform Call.breakloop (some m) (some c))
  unfolding perform daq_breakloop
  breakloop-Moves = elim (Option-cases m.breakloop) [
    | inl e ↦ ground arith
    | inr (f, e) ↦ ground (arith, k.reports, k.breaks f e c)
  ]

  pub reset_stats-Moves : Moves status (status c) (perform Call.reset_stats (some m) (some c))
  unfolding perform daq_reset_stats
  reset_stats-Moves = elim (Option-cases m.reset_stats) [
    | inl e ↦ ground arith
    | inr (f, e) ↦ ground (arith, k.reports, k.resets f e c)
  ]

  pub clear_error-Moves : Moves status (status c) (perform Call.clear_error (some m) (some c))
  unfolding perform daq_clear_error
  clear_error-Moves = elim (Option-cases m.set_errbuf) [
    | inl e ↦ ground arith
    | inr (f, e) ↦ ground (arith, k.reports, k.writes f e c [])
  ]

  pub hup_prep-Moves : Moves status (status c) (perform Call.hup_prep (some m) (some c))
  unfolding perform daq_hup_prep
  hup_prep-Moves = elim (Option-cases m.hup_prep) [
    | inl e ↦ ground arith
    | inr (f, e) ↦ ground (arith, k.reports, k.prepares f e c)
  ]

  pub hup_apply-Moves :
      (v : Option ℕ) → Moves status (status c) (perform (Call.hup_apply v) (some m) (some c))
  unfolding perform daq_hup_apply
  hup_apply-Moves v = elim (Option-cases m.hup_apply) [
    | inl e ↦ ground arith
    | inr (f, e) ↦ ground (arith, k.reports, k.applies f e c v)
  ]

  pub hup_post-Moves :
      (v : Option ℕ) → Moves status (status c) (perform (Call.hup_post v) (some m) (some c))
  unfolding perform daq_hup_post
  hup_post-Moves v = elim (Option-cases m.hup_post) [
    | inl e ↦ ground arith
    | inr (f, e) ↦ ground (arith, k.reports, k.posts f e c v)
  ]

  pub dp_add_dc-Moves :
      (h : PktHdr) (d : DpKey) (p : List ℕ) (v : Option ChannelParams)
      → Moves status (status c) (perform (Call.dp_add_dc h d p v) (some m) (some c))
  unfolding perform daq_dp_add_dc
  dp_add_dc-Moves h d p v = elim (Option-cases m.dp_add_dc) [
    | inl e ↦ ground arith
    | inr (f, e) ↦ ground (arith, k.reports, k.adds f e c h d p v)
  ]
