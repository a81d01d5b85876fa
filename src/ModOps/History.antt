-- ===== src/ModOps/History.antt =====
-- Any history of calls: the status goes forward only, and a stopped instance stays stopped.
use libdaq.Prelude.{
  ◌>>=◌, ℕ, ℤ, ◌≤◌, CString, codes, List, [], ◌∷◌, Option, none, some, ◌≡◌, arith, Option-cases,
  inl, inr,
}
use libdaq.Common.{PktHdr, Stats, state_initialized, state_stopped, daq_error}
use libdaq.Module.{Module, Callback, FlowArg}
use libdaq.ModOps.{
  refuse, when_status, daq_set_filter, daq_start, daq_acquire, daq_acquire_with_meta, daq_inject,
  daq_breakloop, daq_stop, daq_shutdown,
}
use libdaq.ModOps.Query.{
  daq_check_status, daq_get_stats, daq_reset_stats, daq_get_snaplen, daq_get_capabilities,
  daq_get_datalink_type, daq_get_error, daq_clear_error, daq_get_device_index, daq_hup_prep,
  daq_hup_apply, daq_hup_post, daq_modify_flow, daq_query_flow, daq_dp_add_dc,
}
use libdaq.ModOps.Calls.{Call, perform}
use libdaq.ModOps.Contract.{Contract, Moves}
use libdaq.ModOps.Lifecycle.{
  start-Moves, stop-Moves, acquire-Moves, acquire_with_meta-Moves, breakloop-Moves,
  reset_stats-Moves, clear_error-Moves, hup_prep-Moves, hup_apply-Moves, hup_post-Moves,
  dp_add_dc-Moves,
}

module _ {C U : Type 0} (m : Module C U) (status : C → ℕ) (k : Contract m status) (c : C)
    (low : state_initialized ≤ status c) (high : status c ≤ state_stopped) where
  -- A refused call only writes the error text.
  refuse-Moves :
      (text : CString) (code : ℤ) → Moves status (status c) (refuse m c text code >>= λ x. some x.1)
  unfolding refuse
  refuse-Moves text code = elim (Option-cases m.set_errbuf) [
    | inl e ↦ ground arith
    | inr (w, e) ↦ ground (arith, k.writes w e c text)
  ]

  set_filter-Moves :
      (s : Option CString) → Moves status (status c) (perform (Call.set_filter s) (some m) (some c))
  unfolding perform daq_set_filter
  set_filter-Moves none = refuse-Moves _ _
  set_filter-Moves (some s) = elim (Option-cases m.set_filter) [
    | inl e ↦ ground arith
    | inr (f, e) ↦ ground (arith, k.filters f e c s)
  ]

  inject-Moves :
      (h : Option PktHdr) (p : Option (List ℕ)) (n : ℕ) (r : ℤ)
      → Moves status (status c) (perform (Call.inject h p n r) (some m) (some c))
  unfolding perform daq_inject
  inject-Moves none p n r = refuse-Moves _ _
  inject-Moves (some h) none n r = refuse-Moves _ _
  inject-Moves (some h) (some p) n r = elim (Option-cases m.inject) [
    | inl e ↦ ground arith
    | inr (f, e) ↦ ground (arith, k.injects f e c h p n r)
  ]

  get_stats-Moves :
      (s : Option Stats) → Moves status (status c) (perform (Call.get_stats s) (some m) (some c))
  unfolding perform daq_get_stats
  get_stats-Moves none = elim (Option-cases m.set_errbuf) [
    | inl e ↦ ground arith
    | inr (w, e) ↦ ground (arith, k.writes w e c (codes "No place to put the statistics!"))
  ]
  get_stats-Moves (some s) = elim (Option-cases m.get_stats) [
    | inl e ↦ ground arith
    | inr (f, e) ↦ ground (arith, k.gets f e c s)
  ]

  get_device_index-Moves :
      (d : Option CString)
      → Moves status (status c) (perform (Call.get_device_index d) (some m) (some c))
  unfolding perform daq_get_device_index
  get_device_index-Moves none = refuse-Moves _ _
  get_device_index-Moves (some d) = ground arith

  modify_flow-Moves :
      (h : PktHdr) (a : FlowArg)
      → Moves status (status c) (perform (Call.modify_flow h a) (some m) (some c))
  unfolding perform daq_modify_flow
  modify_flow-Moves h a = elim (Option-cases m.modify_flow) [
    | inl e ↦ ground arith
    | inr (f, e) ↦ ground (arith, k.modifies f e (some c) h a)
  ]

  query_flow-Moves :
      (h : PktHdr) (a : FlowArg)
      → Moves status (status c) (perform (Call.query_flow h a) (some m) (some c))
  unfolding perform daq_query_flow
  query_flow-Moves h a = elim (Option-cases m.query_flow) [
    | inl e ↦ ground arith
    | inr (f, e) ↦ ground (arith, k.queries f e (some c) h a)
  ]

  perform-Moves : (call : Call U) → Moves status (status c) (perform call (some m) (some c))
  unfolding perform daq_shutdown daq_check_status daq_get_snaplen daq_get_capabilities
      daq_get_datalink_type daq_get_error
  perform-Moves (Call.set_filter s) = set_filter-Moves s
  perform-Moves Call.start = start-Moves m status k c low high
  perform-Moves Call.stop = stop-Moves m status k c low high
  perform-Moves Call.breakloop = breakloop-Moves m status k c low high
  perform-Moves Call.reset_stats = reset_stats-Moves m status k c low high
  perform-Moves Call.clear_error = clear_error-Moves m status k c low high
  perform-Moves Call.hup_prep = hup_prep-Moves m status k c low high
  perform-Moves (Call.hup_apply v) = hup_apply-Moves m status k c low high v
  perform-Moves (Call.hup_post v) = hup_post-Moves m status k c low high v
  perform-Moves (Call.acquire n g u) = acquire-Moves m status k c low high n g u
  perform-Moves (Call.acquire_with_meta n g g' u) =
      acquire_with_meta-Moves m status k c low high n g g' u
  perform-Moves (Call.inject h p n r) = inject-Moves h p n r
  perform-Moves (Call.get_stats s) = get_stats-Moves s
  perform-Moves (Call.get_device_index d) = get_device_index-Moves d
  perform-Moves (Call.modify_flow h a) = modify_flow-Moves h a
  perform-Moves (Call.query_flow h a) = query_flow-Moves h a
  perform-Moves (Call.dp_add_dc h d p v) = dp_add_dc-Moves m status k c low high h d p v
  perform-Moves call = ground arith

-- No instance comes out of a call.
abbrev Gone : {C : Type 0} → Option (Option C) → Type 0
Gone none = Unit
Gone (some none) = Unit
Gone (some (some c)) = ⊥

module _ {C U : Type 0} where
  -- The calls one after another; a fault ends the run.
  unfoldable pub run : Module C U → List (Call U) → Option C → Option (Option C)
  run m [] h = some h
  run m (call ∷ calls) h = perform call (some m) h >>= run m calls

  module _ (m : Module C U) (status : C → ℕ) (k : Contract m status) where
    modify_flow-Gone :
        (h : PktHdr) (a : FlowArg) → Gone (perform (Call.modify_flow h a) (some m) none)
    unfolding perform daq_modify_flow
    modify_flow-Gone h a = elim (Option-cases m.modify_flow) [
      | inl e ↦ ground arith
      | inr (f, e) ↦ ground (arith, k.modifies f e none h a)
    ]

    query_flow-Gone :
        (h : PktHdr) (a : FlowArg) → Gone (perform (Call.query_flow h a) (some m) none)
    unfolding perform daq_query_flow
    query_flow-Gone h a = elim (Option-cases m.query_flow) [
      | inl e ↦ ground arith
      | inr (f, e) ↦ ground (arith, k.queries f e none h a)
    ]

    perform-Gone : (call : Call U) → Gone (perform call (some m) none)
    unfolding perform daq_set_filter daq_start daq_acquire daq_acquire_with_meta daq_inject
        daq_breakloop daq_stop daq_shutdown daq_check_status daq_get_stats daq_reset_stats
        daq_get_snaplen daq_get_capabilities daq_get_datalink_type daq_get_error daq_clear_error
        daq_get_device_index daq_hup_prep daq_hup_apply daq_hup_post daq_dp_add_dc
    perform-Gone (Call.modify_flow h a) = modify_flow-Gone h a
    perform-Gone (Call.query_flow h a) = query_flow-Gone h a
    perform-Gone call = tt

    run-Gone : (calls : List (Call U)) → Gone (run m calls none)
    unfolding run
    run-Gone [] = tt
    run-Gone (call ∷ calls) =
        after (perform call (some m) none) (perform-Gone call) (run-Gone calls)
      where
        after :
            (o : Option (Option C)) → Gone o → Gone (run m calls none) → Gone (o >>= run m calls)
        after none g r = tt
        after (some none) g r = r
        after (some (some c)) g r = absurd g

    -- Over any history of calls on an instance that is initialized, started or stopped, with a module
    -- that keeps the rules of `Contract`, the status never goes back and stays one of the three, as long as
    -- the instance is there.
    pub run-Moves :
        (calls : List (Call U)) (c : C)
        → state_initialized ≤ status c
        → status c ≤ state_stopped
        → Moves status (status c) (run m calls (some c))
    unfolding run
    run-Moves [] c low high = ground arith
    run-Moves (call ∷ calls) c low high =
        after (perform call (some m) (some c)) (perform-Moves m status k c low high call)
          (λ d. run-Moves calls d)
      where
        weaken :
            (o : Option (Option C)) (s : ℕ)
            → status c ≤ s
            → Moves status s o
            → Moves status (status c) o
        weaken none s le v = tt
        weaken (some none) s le v = tt
        weaken (some (some d)) s le v = omega arith

        after :
            (o : Option (Option C))
            → Moves status (status c) o
            → ((d : C)
                → state_initialized ≤ status d
                → status d ≤ state_stopped
                → Moves status (status d) (run m calls (some d)))
            → Moves status (status c) (o >>= run m calls)
        after none v r = tt
        after (some none) v r =
            weaken (run m calls none) (status c) (omega arith)
              (gone (run m calls none) (run-Gone calls))
          where
            gone : (o : Option (Option C)) → Gone o → Moves status (status c) o
            gone none g = tt
            gone (some none) g = tt
            gone (some (some d)) g = absurd g
        after (some (some d)) v r =
            weaken (run m calls (some d)) (status d) (omega arith) (r d (omega arith) (omega arith))

    -- A stopped instance stays stopped, and can neither be started nor used to acquire: after any
    -- history that leaves it there, `daq_start` and `daq_acquire` give DAQ_ERROR if they return, and
    -- the state of the user's callback is as before.
    pub stopped_for_good :
        (calls : List (Call U)) (c d : C) (cnt : ℤ) (g : Option (Callback U)) (user : U)
        → status c ≡ state_stopped
        → run m calls (some c) ≡ some (some d)
        → (status d ≡ state_stopped)
          × ((code : ℤ) (h : Option C)
              → daq_start (some m) (some d) ≡ some (code, h)
              → code ≡ daq_error)
          × ((code : ℤ) (h : Option C) (user' : U)
              → daq_acquire (some m) (some d) cnt g user ≡ some (code, h, user')
              → (code ≡ daq_error) × (user' ≡ user))
    unfolding daq_start daq_acquire when_status refuse
    stopped_for_good calls c d cnt g user s e =
        let moves : Moves status (status c) (some (some d)) =
          rw e at (run-Moves calls c (omega arith) (omega arith)) in
        let stays : status d ≡ state_stopped = omega arith in
        (stays, λ code h r. ground (arith, k.reports), λ code h user' r. ground (arith, k.reports))
