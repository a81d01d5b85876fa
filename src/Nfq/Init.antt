-- ===== src/Nfq/Init.antt =====
-- os-daq-modules/daq_nfq.c: `nfq_daq_initialize`.
use libdaq.Prelude.{
  ℕ, ◌-◌, ℤ, pos, negsuc, CString, codes, List, [], ◌∷◌, ◌++◌, Option, none, some, Bool, true,
  false, ◌&&◌, ◌||◌, not, take, ltb, if◌then◌else◌,
}
use libdaq.Common.{
  Config, daq_success, daq_error, daq_error_nomem, daq_error_inval, state_initialized,
}
use libdaq.Dump.Vars.{case_eq}
use libdaq.Module.{InitReply}
use libdaq.Netfilter.{Event, Resource, pf_inet, pf_inet6}
use libdaq.Nfq.{NfqImpl, fresh_nfq, ip4, ip6, nfq_daq_shutdown}
use libdaq.Nfq.Setup.{Built, nfq_daq_get_setup}

-- MSG_BUF_SIZE.
abbrev pub nfq_buf_size : ℕ
nfq_buf_size = 66047

-- What the allocator, libnetfilter_queue and libdnet answer: whether a call succeeds, for the argument
-- that matters.
pub record Answers : Type 0 where
  pub calloc : Bool
  pub strdup : CString → Option CString
  pub malloc : ℕ → Option (List ℕ)
  pub nfq_open : Bool
  pub nfq_unbind_pf : ℕ → Bool
  pub nfq_bind_pf : ℕ → Bool
  pub nfq_create_queue : ℤ → Bool
  pub nfq_set_mode : Bool
  pub nfq_set_queue_maxlen : ℤ → Bool
  pub nfq_fd : ℤ
  pub eth_open : CString → Bool
  pub ip_open : Bool

-- What the caller sees, and what was taken and given back, the latest first.
pub record Outcome (F U : Type 0) : Type 0 where
  pub reply : InitReply (NfqImpl F U)
  pub events : List Event

-- `impl->qlen > 0`.
abbrev pub positive : ℤ → Bool
positive (pos n) = ltb 0 n
positive (negsuc n) = false

-- `impl->device && strcasecmp(impl->device, "ip")`: the device to open.
unfoldable pub ether_device : Option CString → Option CString
ether_device none = none
ether_device (some text) = if case_eq text (codes "ip") then none else some text

module _ {F U : Type 0} where
  -- The text, a call of `nfq_daq_shutdown`, and the code.
  abbrev pub give_up : ℤ → ℕ → CString → NfqImpl F U → List Event → Outcome F U
  give_up code max text impl es = record {
    reply = record {
      code = code;
      handle = none;
      errbuf = take (max - 1) (codes "nfq_daq_initialize: " ++ text);
    };
    events = nfq_daq_shutdown impl ++ es;
  }

  abbrev finish : CString → NfqImpl F U → List Event → Outcome F U
  finish errbuf impl es = record {
    reply = record {
      code = daq_success;
      handle = some (record impl { state = state_initialized });
      errbuf = errbuf;
    };
    events = es;
  }

  -- The link, or IP.
  unfoldable pub open_output :
      Answers → ℕ → CString → Option CString → NfqImpl F U → List Event → Outcome F U
  open_output env max errbuf none impl es =
      if env.ip_open
      then finish errbuf (record impl { net = true }) (Event.took Resource.net ∷ es)
      else give_up daq_error max (codes "can't open ip!\n") impl es
  open_output env max errbuf (some device) impl es =
      if env.eth_open device
      then finish errbuf (record impl { link = true }) (Event.took Resource.link ∷ es)
      else give_up daq_error max (codes "can't open " ++ (device ++ codes "!\n")) impl es

  -- From nfq_set_mode on.
  unfoldable pub set_up_queue : Answers → ℕ → CString → NfqImpl F U → List Event → Outcome F U
  unfolding open_output ether_device
  set_up_queue env max errbuf impl es =
      if not env.nfq_set_mode
      then give_up daq_error max (codes "unable to set packet copy mode\n") impl es
      else if positive impl.qlen && not (env.nfq_set_queue_maxlen impl.qlen)
      then give_up daq_error max (codes "unable to set queue length\n") impl es
      else open_output env max errbuf (ether_device impl.device) (record impl { sock = env.nfq_fd })
          es

  -- `(IP4(impl) && call(PF_INET) < 0) || (IP6(impl) && call(PF_INET6) < 0)`.
  abbrev pub fails : (ℕ → Bool) → NfqImpl F U → Bool
  fails call impl = (ip4 impl && not (call pf_inet)) || (ip6 impl && not (call pf_inet6))

  -- From nfq_bind_pf on.
  unfoldable pub bind_queue : Answers → ℕ → CString → NfqImpl F U → List Event → Outcome F U
  unfolding set_up_queue
  bind_queue env max errbuf impl es =
      if fails env.nfq_bind_pf impl
      then give_up daq_error max (codes "failed to bind protocols for nfq\n") impl es
      else if not (env.nfq_create_queue impl.qid)
      then give_up daq_error max (codes "nf queue creation failed\n") impl es
      else set_up_queue env max errbuf (record impl { nf_queue = true })
          (Event.took Resource.queue ∷ es)

  -- From nfq_open on. That nfq_unbind_pf fails leaves a text only.
  unfoldable pub open_handle : Answers → ℕ → NfqImpl F U → List Event → Outcome F U
  unfolding bind_queue
  open_handle env max impl es =
      if not env.nfq_open
      then give_up daq_error max (codes "failed to get handle for nfq\n") impl es
      else bind_queue env max
          (if fails env.nfq_unbind_pf impl
            then take (max - 1) (codes "nfq_daq_initialize: failed to unbind protocols for nfq\n")
            else [])
          (record impl { nf_handle = true }) (Event.took Resource.library_handle ∷ es)

  -- From the buffer's allocation on.
  unfoldable pub take_buffer :
      Answers → ℕ → Option (List ℕ) → NfqImpl F U → List Event → Outcome F U
  unfolding open_handle
  take_buffer env max none impl es =
      give_up daq_error_nomem max (codes "failed to allocate nfq buffer\n") impl es
  take_buffer env max (some buf) impl es =
      open_handle env max (record impl { buf = some buf }) (Event.took Resource.buffer ∷ es)

  -- What follows `nfq_daq_get_setup`.
  unfoldable pub after_setup : Answers → ℕ → Built F U → Option CString → Outcome F U
  unfolding take_buffer
  after_setup env max built none =
      take_buffer env max (env.malloc nfq_buf_size) built.impl built.events
  after_setup env max built (some text) = record {
    reply = record { code = daq_error; handle = none; errbuf = take (max - 1) text };
    events = nfq_daq_shutdown built.impl ++ built.events;
  }

  -- `nfq_daq_initialize`, when the configuration has no name.
  unfoldable pub initialize_unnamed : Answers → Config → ℕ → Outcome F U
  unfolding after_setup nfq_daq_get_setup
  initialize_unnamed env cfg max =
      if env.calloc
      then (let built =
            nfq_daq_get_setup env.strdup cfg fresh_nfq (Event.took Resource.context ∷ []) in
          after_setup env max built built.failure)
      else record {
        reply = record {
          code = daq_error_nomem;
          handle = none;
          errbuf = take (max - 1) (codes "nfq_daq_initialize: failed to allocate nfq context\n");
        };
        events = [];
      }

  -- `cfg->name && *(cfg->name)` comes first.
  unfoldable pub refuse_name : Answers → Config → CString → ℕ → Outcome F U
  unfolding initialize_unnamed
  refuse_name env cfg [] max = initialize_unnamed env cfg max
  refuse_name env cfg (c ∷ cs) max = record {
    reply = record {
      code = daq_error_inval;
      handle = none;
      errbuf =
          take (max - 1) (codes "The nfq DAQ module does not support interface or readback mode!");
    };
    events = [];
  }

  -- `nfq_daq_initialize`.
  unfoldable pub nfq_daq_initialize : Answers → Config → ℕ → Outcome F U
  unfolding refuse_name
  nfq_daq_initialize env cfg max = refuse_name env cfg cfg.name max
