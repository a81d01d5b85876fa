-- ===== src/Nfq/Starting.antt =====
-- os-daq-modules/daq_nfq.c: how `nfq_daq_initialize` ends.
use libdaq.Prelude.{
  ap, ℕ, CString, List, [], ◌∷◌, Option, none, some, true, false, not, ◌≡◌, inl, refl, arith,
}
use libdaq.Common.{Config}
use libdaq.Netfilter.{Event, Resource, there, times_taken, times_given}
use libdaq.Nfq.{NfqImpl, fresh_nfq}
use libdaq.Nfq.Setup.{Built, nfq_daq_get_setup}
use libdaq.Nfq.Init.{
  Answers, fails, nfq_buf_size, bind_queue, open_handle, take_buffer, after_setup,
  initialize_unnamed, refuse_name, nfq_daq_initialize,
}
use libdaq.Netfilter.Ownership.{Owns-took, Owns-GivesBack, with_queue, with_handle, with_buffer}
use libdaq.Nfq.Ownership.{held, shutdown-GivesBack}
use libdaq.Nfq.Settings.{Prepared, get_setup-IsPrepared}
use libdaq.Nfq.Opening.{Opening, Ends, error_is_bad, if-Ends, set_up_queue-Ends}

module _ {F U : Type 0} where
  bind_queue-Ends :
      (env : Answers) (max : ℕ) (errbuf : CString) (impl : NfqImpl F U) (es : List Event)
      → Opening impl es
      → there impl.buf ≡ true
      → impl.nf_handle ≡ true
      → impl.nf_queue ≡ false
      → Ends env (bind_queue env max errbuf impl es)
  unfolding bind_queue
  bind_queue-Ends env max errbuf impl es p buffer handle queue =
      if-Ends env (fails env.nfq_bind_pf impl) _ _
        (λ e.
          inl
            (error_is_bad, refl, Owns-GivesBack (held impl) es _ p.owns (shutdown-GivesBack impl)))
        (λ bound.
          if-Ends env (not (env.nfq_create_queue impl.qid)) _ _
            (λ e. inl (
              error_is_bad,
              refl,
              Owns-GivesBack (held impl) es _ p.owns (shutdown-GivesBack impl),
            ))
            (λ created.
              set_up_queue-Ends env max errbuf (record impl { nf_queue = true })
                (Event.took Resource.queue ∷ es)
                (record {
                  opening = record {
                    owns =
                        Owns-took (held impl) (held (record impl { nf_queue = true }))
                          Resource.queue es (λ r. with_queue (held impl) r queue) p.owns;
                    qid = p.qid;
                    qlen = p.qlen;
                    protos = p.protos;
                    link = p.link;
                    net = p.net;
                  };
                  buffer = buffer;
                  nf_handle = handle;
                  nf_queue = refl;
                  bound = bound;
                  created = ground (arith, created);
                })))

  open_handle-Ends :
      (env : Answers) (max : ℕ) (impl : NfqImpl F U) (es : List Event)
      → Opening impl es
      → there impl.buf ≡ true
      → impl.nf_handle ≡ false
      → impl.nf_queue ≡ false
      → Ends env (open_handle env max impl es)
  unfolding open_handle
  open_handle-Ends env max impl es p buffer handle queue =
      if-Ends env (not env.nfq_open) _ _
        (λ e.
          inl
            (error_is_bad, refl, Owns-GivesBack (held impl) es _ p.owns (shutdown-GivesBack impl)))
        (λ e.
          bind_queue-Ends env max _ (record impl { nf_handle = true })
            (Event.took Resource.library_handle ∷ es)
            (record {
              owns =
                  Owns-took (held impl) (held (record impl { nf_handle = true }))
                    Resource.library_handle es (λ r. with_handle (held impl) r handle) p.owns;
              qid = p.qid;
              qlen = p.qlen;
              protos = p.protos;
              link = p.link;
              net = p.net;
            })
            buffer refl queue)

  take_buffer-Ends :
      (env : Answers) (max : ℕ) (buf : Option (List ℕ)) (impl : NfqImpl F U) (es : List Event)
      → Prepared impl es
      → Ends env (take_buffer env max buf impl es)
  unfolding take_buffer
  take_buffer-Ends env max none impl es p =
      inl
        ((λ e. absurd (cc)), refl, Owns-GivesBack (held impl) es _ p.owns (shutdown-GivesBack impl))
  take_buffer-Ends env max (some buf) impl es p =
      open_handle-Ends env max (record impl { buf = some buf }) (Event.took Resource.buffer ∷ es)
        (record {
          owns =
              Owns-took (held impl) (held (record impl { buf = some buf })) Resource.buffer es
                (λ r. with_buffer (held impl) r (ap there p.buf)) p.owns;
          qid = p.qid;
          qlen = p.qlen;
          protos = p.protos;
          link = p.link;
          net = p.net;
        })
        refl p.nf_handle p.nf_queue

  after_setup-Ends :
      (env : Answers) (max : ℕ) (built : Built F U) (failure : Option CString)
      → Prepared built.impl built.events
      → Ends env (after_setup env max built failure)
  unfolding after_setup
  after_setup-Ends env max built none p =
      take_buffer-Ends env max (env.malloc nfq_buf_size) built.impl built.events p
  after_setup-Ends env max built (some text) p = inl (
    error_is_bad,
    refl,
    Owns-GivesBack (held built.impl) built.events _ p.owns (shutdown-GivesBack built.impl),
  )

  refuse_name-Ends :
      (env : Answers) (cfg : Config) (name : CString) (max : ℕ)
      → Ends {F = F} {U = U} env (refuse_name env cfg name max)
  unfolding refuse_name initialize_unnamed times_taken times_given
  refuse_name-Ends env cfg (c ∷ cs) max = inl ((λ e. absurd (cc)), refl, λ r other. refl)
  refuse_name-Ends env cfg [] max =
      let built : Built F U =
        nfq_daq_get_setup env.strdup cfg fresh_nfq (Event.took Resource.context ∷ []) in
      if-Ends env env.calloc _ _
        (λ e. after_setup-Ends env max built built.failure (get_setup-IsPrepared env.strdup cfg))
        (λ e. inl ((λ h. absurd (cc)), refl, λ r other. refl))

  -- Whatever the allocator, libnetfilter_queue and libdnet answer, `nfq_daq_initialize` ends in one of
  -- two ways. It fails with another code than DAQ_SUCCESS, hands out no handle, and has given
  -- back everything that it took as often as it took it, but for the texts of devices. Or it returns
  -- DAQ_SUCCESS and hands out an instance that holds what it took: its queue number and queue length are
  -- from 0 to 65535, it is for IPv4 or for IPv6, it has its buffer, the protocols were bound and the queue
  -- created for its number, exactly one of link and IP is open, and its state is INITIALIZED.
  pub nfq_initialize_lem :
      (env : Answers) (cfg : Config) (max : ℕ)
      → Ends {F = F} {U = U} env (nfq_daq_initialize env cfg max)
  unfolding nfq_daq_initialize
  nfq_initialize_lem env cfg max = refuse_name-Ends env cfg cfg.name max
