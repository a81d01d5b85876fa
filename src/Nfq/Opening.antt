-- ===== src/Nfq/Opening.antt =====
-- os-daq-modules/daq_nfq.c: what an instance has when `nfq_daq_initialize` ends, and its last steps.
use libdaq.Prelude.{
  ℕ, ◌≢◌, CString, List, Option, none, some, Bool, true, false, not, ◌&&◌, if◌then◌else◌, ◌≡◌, ◌⊎◌,
  inl, inr, refl, sym, ap,
}
use libdaq.Common.{daq_success, daq_error, state_initialized}
use libdaq.Netfilter.{Event, Resource, there}
use libdaq.Nfq.{NfqImpl}
use libdaq.Nfq.Init.{Answers, Outcome, positive, fails, ether_device, open_output, set_up_queue}
use libdaq.Netfilter.Ownership.{AllGiven, Owns, Owns-took, Owns-GivesBack, with_net, with_link}
use libdaq.Nfq.Ownership.{held, shutdown-GivesBack}
use libdaq.Nfq.Settings.{IsShort, IsProtos}

-- An instance that was set up, with its queue at the kernel and one way to send packets.
pub record Ready {F U : Type 0} (env : Answers) (impl : NfqImpl F U) : Type 0 where
  pub qid : IsShort impl.qid
  pub qlen : IsShort impl.qlen
  pub protos : IsProtos impl.protos
  pub buffer : there impl.buf ≡ true
  pub nf_handle : impl.nf_handle ≡ true
  pub nf_queue : impl.nf_queue ≡ true
  pub bound : fails env.nfq_bind_pf impl ≡ false
  pub created : env.nfq_create_queue impl.qid ≡ true
  pub sock : impl.sock ≡ env.nfq_fd
  pub output : impl.link ≡ not impl.net
  pub state : impl.state ≡ state_initialized

-- An instance while its resources are opened.
pub record Opening {F U : Type 0} (impl : NfqImpl F U) (es : List Event) : Type 0 where
  pub owns : Owns (held impl) es
  pub qid : IsShort impl.qid
  pub qlen : IsShort impl.qlen
  pub protos : IsProtos impl.protos
  pub link : impl.link ≡ false
  pub net : impl.net ≡ false

pub error_is_bad : daq_error ≢ daq_success
error_is_bad e = absurd (cc)

module _ {F U : Type 0} where
  abbrev pub Fails : Outcome F U → Type 0
  Fails o = (o.reply.code ≢ daq_success) × (o.reply.handle ≡ none) × AllGiven o.events

  abbrev pub Succeeds : Answers → Outcome F U → Type 0
  Succeeds env o =
      (o.reply.code ≡ daq_success)
      × (impl : NfqImpl F U) × (o.reply.handle ≡ some impl)
      × Owns (held impl) o.events
      × Ready env impl

  abbrev pub Ends : Answers → Outcome F U → Type 0
  Ends env o = Fails o ⊎ Succeeds env o

  pub if-Ends :
      (env : Answers) (b : Bool) (x y : Outcome F U)
      → (b ≡ true → Ends env x)
      → (b ≡ false → Ends env y)
      → Ends env (if b then x else y)
  if-Ends env true x y h k = h refl
  if-Ends env false x y h k = k refl

  -- The output is all that is left to open.
  pub record Queueing (env : Answers) (impl : NfqImpl F U) (es : List Event) : Type 0 where
    pub opening : Opening impl es
    pub buffer : there impl.buf ≡ true
    pub nf_handle : impl.nf_handle ≡ true
    pub nf_queue : impl.nf_queue ≡ true
    pub bound : fails env.nfq_bind_pf impl ≡ false
    pub created : env.nfq_create_queue impl.qid ≡ true

  open_output-Ends :
      (env : Answers) (max : ℕ) (errbuf : CString) (device : Option CString) (impl : NfqImpl F U)
      (es : List Event)
      → Queueing env impl es
      → impl.sock ≡ env.nfq_fd
      → Ends env (open_output env max errbuf device impl es)
  unfolding open_output
  open_output-Ends env max errbuf none impl es q sock =
      let p = q.opening in
      if-Ends env env.ip_open _ _
        (λ e. inr (
          refl,
          _,
          refl,
          Owns-took (held impl) (held (record impl { net = true; state = state_initialized }))
              Resource.net es (λ r. with_net (held impl) r p.net) p.owns,
          record {
            qid = p.qid;
            qlen = p.qlen;
            protos = p.protos;
            buffer = q.buffer;
            nf_handle = q.nf_handle;
            nf_queue = q.nf_queue;
            bound = q.bound;
            created = q.created;
            sock = sock;
            output = p.link;
            state = refl;
          },
        ))
        (λ e.
          inl
            (error_is_bad, refl, Owns-GivesBack (held impl) es _ p.owns (shutdown-GivesBack impl)))
  open_output-Ends env max errbuf (some device) impl es q sock =
      let p = q.opening in
      if-Ends env (env.eth_open device) _ _
        (λ e. inr (
          refl,
          _,
          refl,
          Owns-took (held impl) (held (record impl { link = true; state = state_initialized }))
              Resource.link es (λ r. with_link (held impl) r p.link) p.owns,
          record {
            qid = p.qid;
            qlen = p.qlen;
            protos = p.protos;
            buffer = q.buffer;
            nf_handle = q.nf_handle;
            nf_queue = q.nf_queue;
            bound = q.bound;
            created = q.created;
            sock = sock;
            output = ap not (sym p.net);
            state = refl;
          },
        ))
        (λ e.
          inl
            (error_is_bad, refl, Owns-GivesBack (held impl) es _ p.owns (shutdown-GivesBack impl)))

  pub set_up_queue-Ends :
      (env : Answers) (max : ℕ) (errbuf : CString) (impl : NfqImpl F U) (es : List Event)
      → Queueing env impl es
      → Ends env (set_up_queue env max errbuf impl es)
  unfolding set_up_queue
  set_up_queue-Ends env max errbuf impl es q =
      let p = q.opening in
      if-Ends env (not env.nfq_set_mode) _ _
        (λ e.
          inl
            (error_is_bad, refl, Owns-GivesBack (held impl) es _ p.owns (shutdown-GivesBack impl)))
        (λ e.
          if-Ends env (positive impl.qlen && not (env.nfq_set_queue_maxlen impl.qlen)) _ _
            (λ h. inl (
              error_is_bad,
              refl,
              Owns-GivesBack (held impl) es _ p.owns (shutdown-GivesBack impl),
            ))
            (λ h.
              open_output-Ends env max errbuf (ether_device impl.device)
                (record impl { sock = env.nfq_fd }) es
                (record {
                  opening = record {
                    owns = p.owns;
                    qid = p.qid;
                    qlen = p.qlen;
                    protos = p.protos;
                    link = p.link;
                    net = p.net;
                  };
                  buffer = q.buffer;
                  nf_handle = q.nf_handle;
                  nf_queue = q.nf_queue;
                  bound = q.bound;
                  created = q.created;
                })
                refl))
