-- ===== src/Ipq/Starting.antt =====
-- os-daq-modules/daq_ipq.c: how `ipq_daq_initialize` ends.
use libdaq.Prelude.{
  ℕ, CString, List, [], ◌∷◌, ◌++◌, Option, none, some, Bool, true, false, not, if◌then◌else◌, ◌≡◌,
  ◌⊎◌, ◌≢◌, inl, inr, refl, sym, ap, arith,
}
use libdaq.Common.{Config, daq_success, state_initialized}
use libdaq.Netfilter.{Event, Resource, there, times_taken, times_given}
use libdaq.Netfilter.Ownership.{
  AllGiven, Owns, Owns-took, Owns-GivesBack, with_net, with_link, with_handle, with_buffer,
}
use libdaq.Nfq.Init.{ether_device}
use libdaq.Nfq.Opening.{error_is_bad}
use libdaq.Ipq.{IpqImpl, fresh_ipq, ipq_daq_shutdown}
use libdaq.Ipq.Setup.{IpqBuilt, ipq_daq_get_setup}
use libdaq.Ipq.Init.{
  IpqAnswers, IpqOutcome, open_ipq_output, create_handle, take_ipq_buffer, after_ipq_setup,
  initialize_ipq, refuse_ipq_name, ipq_daq_initialize,
}
use libdaq.Ipq.Ownership.{ipq_held, ipq_shutdown-GivesBack}
use libdaq.Ipq.Settings.{IsProto, IpqPrepared, ipq_get_setup-IpqPrepared}

-- An instance that was set up, with a handle of libipq and one way to send packets.
pub record IpqReady {F : Type 0} (env : IpqAnswers) (impl : IpqImpl F) : Type 0 where
  pub proto : IsProto impl.proto
  pub buffer : there impl.buf ≡ true
  pub ipqh : impl.ipqh ≡ true
  pub created : env.ipq_create_handle impl.proto ≡ true
  pub set : env.ipq_set_mode ≡ true
  pub output : impl.link ≡ not impl.net
  pub state : impl.state ≡ state_initialized

module _ {F : Type 0} where
  abbrev Fails : IpqOutcome F → Type 0
  Fails o = (o.reply.code ≢ daq_success) × (o.reply.handle ≡ none) × AllGiven o.events

  abbrev Succeeds : IpqAnswers → IpqOutcome F → Type 0
  Succeeds env o =
      (o.reply.code ≡ daq_success)
      × (impl : IpqImpl F) × (o.reply.handle ≡ some impl)
      × Owns (ipq_held impl) o.events
      × IpqReady env impl

  abbrev pub IpqEnds : IpqAnswers → IpqOutcome F → Type 0
  IpqEnds env o = Fails o ⊎ Succeeds env o

  if-IpqEnds :
      (env : IpqAnswers) (b : Bool) (x y : IpqOutcome F)
      → (b ≡ true → IpqEnds env x)
      → (b ≡ false → IpqEnds env y)
      → IpqEnds env (if b then x else y)
  if-IpqEnds env true x y h k = h refl
  if-IpqEnds env false x y h k = k refl

  -- A handle is there, and the output is to be opened.
  record Handling (env : IpqAnswers) (impl : IpqImpl F) (es : List Event) : Type 0 where
    owns : Owns (ipq_held impl) es
    proto : IsProto impl.proto
    buffer : there impl.buf ≡ true
    ipqh : impl.ipqh ≡ true
    created : env.ipq_create_handle impl.proto ≡ true
    set : env.ipq_set_mode ≡ true
    link : impl.link ≡ false
    net : impl.net ≡ false

  all_given :
      (impl : IpqImpl F) (es : List Event)
      → Owns (ipq_held impl) es
      → AllGiven (ipq_daq_shutdown impl ++ es)
  all_given impl es owns = Owns-GivesBack (ipq_held impl) es _ owns (ipq_shutdown-GivesBack impl)

  open_output-IpqEnds :
      (env : IpqAnswers) (max : ℕ) (device : Option CString) (impl : IpqImpl F) (es : List Event)
      → Handling env impl es
      → IpqEnds env (open_ipq_output env max device impl es)
  unfolding open_ipq_output
  open_output-IpqEnds env max none impl es p =
      if-IpqEnds env env.ip_open _ _
        (λ e. inr (
          refl,
          _,
          refl,
          Owns-took (ipq_held impl) (ipq_held (record impl { net = true })) Resource.net es
              (λ r. with_net (ipq_held impl) r p.net) p.owns,
          record {
            proto = p.proto;
            buffer = p.buffer;
            ipqh = p.ipqh;
            created = p.created;
            set = p.set;
            output = p.link;
            state = refl;
          },
        ))
        (λ e. inl (error_is_bad, refl, all_given impl es p.owns))
  open_output-IpqEnds env max (some device) impl es p =
      if-IpqEnds env (env.eth_open device) _ _
        (λ e. inr (
          refl,
          _,
          refl,
          Owns-took (ipq_held impl) (ipq_held (record impl { link = true })) Resource.link es
              (λ r. with_link (ipq_held impl) r p.link) p.owns,
          record {
            proto = p.proto;
            buffer = p.buffer;
            ipqh = p.ipqh;
            created = p.created;
            set = p.set;
            output = ap not (sym p.net);
            state = refl;
          },
        ))
        (λ e. inl (error_is_bad, refl, all_given impl es p.owns))

  create_handle-IpqEnds :
      (env : IpqAnswers) (max : ℕ) (buf : List ℕ) (impl : IpqImpl F) (es : List Event)
      → IpqPrepared impl es
      → IpqEnds env
          (create_handle env max (record impl { buf = some buf }) (Event.took Resource.buffer ∷ es))
  unfolding create_handle
  create_handle-IpqEnds env max buf impl es p =
      let with_buf : IpqImpl F = record impl { buf = some buf } in
      let es1 = Event.took Resource.buffer ∷ es in
      let with_ipqh : IpqImpl F = record with_buf { ipqh = true } in
      let es2 = Event.took Resource.library_handle ∷ es1 in
      let owns1 : Owns (ipq_held with_buf) es1 =
        Owns-took (ipq_held impl) (ipq_held with_buf) Resource.buffer es
          (λ r. with_buffer (ipq_held impl) r (ap there p.buf)) p.owns in
      let owns2 : Owns (ipq_held with_ipqh) es2 =
        Owns-took (ipq_held with_buf) (ipq_held with_ipqh) Resource.library_handle es1
          (λ r. with_handle (ipq_held with_buf) r p.ipqh) owns1 in
      if-IpqEnds env (not (env.ipq_create_handle impl.proto)) _ _
        (λ e. inl (error_is_bad, refl, all_given with_buf es1 owns1))
        (λ created.
          if-IpqEnds env (not env.ipq_set_mode) _ _
            (λ e. inl (error_is_bad, refl, all_given with_ipqh es2 owns2))
            (λ set. open_output-IpqEnds env max (ether_device impl.device) with_ipqh es2 (record {
              owns = owns2;
              proto = p.proto;
              buffer = refl;
              ipqh = refl;
              created = ground (arith, created);
              set = ground (arith, set);
              link = p.link;
              net = p.net;
            })))

  take_buffer-IpqEnds :
      (env : IpqAnswers) (max : ℕ) (buf : Option (List ℕ)) (impl : IpqImpl F) (es : List Event)
      → IpqPrepared impl es
      → IpqEnds env (take_ipq_buffer env max buf impl es)
  unfolding take_ipq_buffer
  take_buffer-IpqEnds env max none impl es p =
      inl ((λ e. absurd (cc)), refl, all_given impl es p.owns)
  take_buffer-IpqEnds env max (some buf) impl es p = create_handle-IpqEnds env max buf impl es p

  after_setup-IpqEnds :
      (env : IpqAnswers) (max : ℕ) (built : IpqBuilt F) (failure : Option CString)
      → IpqPrepared built.impl built.events
      → IpqEnds env (after_ipq_setup env max built failure)
  unfolding after_ipq_setup
  after_setup-IpqEnds env max built none p =
      take_buffer-IpqEnds env max (env.malloc env.buf_size) built.impl built.events p
  after_setup-IpqEnds env max built (some text) p =
      inl (error_is_bad, refl, all_given built.impl built.events p.owns)

  refuse_name-IpqEnds :
      (env : IpqAnswers) (cfg : Config) (name : CString) (max : ℕ)
      → IpqEnds env (refuse_ipq_name env cfg name max)
  unfolding refuse_ipq_name initialize_ipq times_taken times_given
  refuse_name-IpqEnds env cfg (c ∷ cs) max = inl ((λ e. absurd (cc)), refl, λ r other. refl)
  refuse_name-IpqEnds env cfg [] max =
      let built : IpqBuilt F =
        ipq_daq_get_setup env.strdup cfg fresh_ipq (Event.took Resource.context ∷ []) in
      if-IpqEnds env env.calloc _ _
        (λ e.
          after_setup-IpqEnds env max built built.failure
            (ipq_get_setup-IpqPrepared env.strdup cfg))
        (λ e. inl ((λ h. absurd (cc)), refl, λ r other. refl))

  -- Whatever the allocator, libipq and libdnet answer, `ipq_daq_initialize` ends in one of two ways. It
  -- fails with another code than DAQ_SUCCESS, hands out no handle, and has given back everything that
  -- it took as often as it took it, the texts of devices left aside. Or it returns DAQ_SUCCESS and hands out an
  -- instance that holds what it took: it is for IPv4 or for IPv6, it has its buffer and a handle of libipq
  -- that was created for its protocol and takes the mode, exactly one of link and IP is open, and its
  -- state is INITIALIZED.
  pub ipq_initialize_lem :
      (env : IpqAnswers) (cfg : Config) (max : ℕ) → IpqEnds env (ipq_daq_initialize env cfg max)
  unfolding ipq_daq_initialize
  ipq_initialize_lem env cfg max = refuse_name-IpqEnds env cfg cfg.name max
