-- ===== src/ModOps/Contract.antt =====
-- Rules on a module's functions and the status of an instance, which the library relies on but cannot
-- check and no header states: an assumption on a module, which Ipq/Life shows of the ipq module.
use libdaq.Prelude.{ℕ, ℤ, ◌≤◌, CString, List, Option, none, some, ◌≡◌}
use libdaq.Common.{PktHdr, Stats, state_initialized, state_started, state_stopped}
use libdaq.Module.{Module, Callback, MetaCallback, FlowArg, DpKey, ChannelParams}

abbrev pub status_of : {C : Type 0} → (C → ℕ) → Option C → Option ℕ
status_of status none = none
status_of status (some c) = some (status c)

-- From one status the instance goes to the same or a later one, or is gone.
abbrev pub Forward : {C : Type 0} → (C → ℕ) → ℕ → Option C → Type 0
Forward status s none = Unit
Forward status s (some c) = (s ≤ status c) × (status c ≤ state_stopped)

-- The same of a call that may fault.
abbrev pub Moves : {C : Type 0} → (C → ℕ) → ℕ → Option (Option C) → Type 0
Moves status s none = Unit
Moves status s (some h) = Forward status s h

module _ {C U : Type 0} where
  -- A module of which `start` leaves an initialized instance initialized, started or stopped, `stop`
  -- leaves a started one started or stopped, and nothing else changes the status.
  pub record Contract (m : Module C U) (status : C → ℕ) : Type 0 where
    pub reports : m.check_status ≡ some status
    pub starts :
        (f : C → C × ℤ)
        → m.start ≡ some f
        → (c : C) → status c ≡ state_initialized
        → (state_initialized ≤ status (f c).0) × (status (f c).0 ≤ state_stopped)
    pub stops :
        (f : C → C × ℤ)
        → m.stop ≡ some f
        → (c : C) → status c ≡ state_started
        → (state_started ≤ status (f c).0) × (status (f c).0 ≤ state_stopped)
    pub filters :
        (f : C → CString → C × ℤ)
        → m.set_filter ≡ some f
        → (c : C) (s : CString) → status (f c s).0 ≡ status c
    pub acquires :
        (f : C → U → ℤ → Option (Callback U) → Option (MetaCallback U) → C × U × ℤ)
        → m.acquire ≡ some f
        → (c : C) (u : U) (n : ℤ) (g : Option (Callback U)) (g' : Option (MetaCallback U))
        → status (f c u n g g').0 ≡ status c
    pub injects :
        (f : C → PktHdr → List ℕ → ℕ → ℤ → C × ℤ)
        → m.inject ≡ some f
        → (c : C) (h : PktHdr) (p : List ℕ) (n : ℕ) (r : ℤ) → status (f c h p n r).0 ≡ status c
    pub breaks : (f : C → C × ℤ) → m.breakloop ≡ some f → (c : C) → status (f c).0 ≡ status c
    pub gets :
        (f : C → Stats → C × Stats × ℤ)
        → m.get_stats ≡ some f
        → (c : C) (s : Stats) → status (f c s).0 ≡ status c
    pub resets : (f : C → C) → m.reset_stats ≡ some f → (c : C) → status (f c) ≡ status c
    pub writes :
        (f : C → CString → C)
        → m.set_errbuf ≡ some f
        → (c : C) (s : CString) → status (f c s) ≡ status c
    pub prepares :
        (f : C → C × Option ℕ × ℤ) → m.hup_prep ≡ some f → (c : C) → status (f c).0 ≡ status c
    pub applies :
        (f : C → Option ℕ → C × Option ℕ × ℤ)
        → m.hup_apply ≡ some f
        → (c : C) (v : Option ℕ) → status (f c v).0 ≡ status c
    pub posts :
        (f : C → Option ℕ → C × ℤ)
        → m.hup_post ≡ some f
        → (c : C) (v : Option ℕ) → status (f c v).0 ≡ status c
    pub adds :
        (f : C → PktHdr → DpKey → List ℕ → Option ChannelParams → C × ℤ)
        → m.dp_add_dc ≡ some f
        → (c : C) (h : PktHdr) (k : DpKey) (p : List ℕ) (v : Option ChannelParams)
        → status (f c h k p v).0 ≡ status c
    pub modifies :
        (f : Option C → PktHdr → FlowArg → Option C × ℤ)
        → m.modify_flow ≡ some f
        → (h : Option C) (hdr : PktHdr) (a : FlowArg)
        → status_of status (f h hdr a).0 ≡ status_of status h
    pub queries :
        (f : Option C → PktHdr → FlowArg → Option C × ℤ)
        → m.query_flow ≡ some f
        → (h : Option C) (hdr : PktHdr) (a : FlowArg)
        → status_of status (f h hdr a).0 ≡ status_of status h
