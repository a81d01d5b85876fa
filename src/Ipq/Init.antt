-- ===== src/Ipq/Init.antt =====
-- os-daq-modules/daq_ipq.c: `ipq_daq_initialize`.
use libdaq.Prelude.{
  ℕ, ◌-◌, CString, codes, List, [], ◌∷◌, ◌++◌, ℤ, Option, none, some, Bool, true, not, take,
  if◌then◌else◌,
}
use libdaq.Common.{
  Config, daq_success, daq_error, daq_error_nomem, daq_error_inval, state_initialized,
}
use libdaq.Module.{InitReply}
use libdaq.Netfilter.{Event, Resource}
use libdaq.Nfq.Init.{ether_device}
use libdaq.Ipq.{IpqImpl, fresh_ipq, ipq_daq_shutdown}
use libdaq.Ipq.Setup.{IpqBuilt, ipq_daq_get_setup}

-- What the allocator, libipq and libdnet answer: whether a call succeeds, for the argument that
-- matters. `buf_size` is MSG_BUF_SIZE, in which a structure of libipq stands.
pub record IpqAnswers : Type 0 where
  pub calloc : Bool
  pub strdup : CString → Option CString
  pub malloc : ℕ → Option (List ℕ)
  pub buf_size : ℕ
  pub ipq_create_handle : ℕ → Bool
  pub ipq_set_mode : Bool
  pub ipq_errstr : CString
  pub eth_open : CString → Bool
  pub ip_open : Bool

-- What the caller sees, and what was taken and given back, the latest first.
pub record IpqOutcome (F : Type 0) : Type 0 where
  pub reply : InitReply (IpqImpl F)
  pub events : List Event

module _ {F : Type 0} where
  -- The text, a call of `ipq_daq_shutdown`, and the code.
  abbrev pub abandon : ℤ → ℕ → CString → IpqImpl F → List Event → IpqOutcome F
  abandon code max text impl es = record {
    reply = record {
      code = code;
      handle = none;
      errbuf = take (max - 1) (codes "ipq_daq_initialize: " ++ text);
    };
    events = ipq_daq_shutdown impl ++ es;
  }

  abbrev complete : IpqImpl F → List Event → IpqOutcome F
  complete impl es = record {
    reply = record {
      code = daq_success;
      handle = some (record impl { state = state_initialized });
      errbuf = [];
    };
    events = es;
  }

  -- The link, or IP.
  unfoldable pub open_ipq_output :
      IpqAnswers → ℕ → Option CString → IpqImpl F → List Event → IpqOutcome F
  open_ipq_output env max none impl es =
      if env.ip_open
      then complete (record impl { net = true }) (Event.took Resource.net ∷ es)
      else abandon daq_error max (codes "can't open ip!\n") impl es
  open_ipq_output env max (some device) impl es =
      if env.eth_open device
      then complete (record impl { link = true }) (Event.took Resource.link ∷ es)
      else abandon daq_error max (codes "can't open " ++ (device ++ codes "!\n")) impl es

  -- From ipq_create_handle on.
  unfoldable pub create_handle : IpqAnswers → ℕ → IpqImpl F → List Event → IpqOutcome F
  unfolding open_ipq_output ether_device
  create_handle env max impl es =
      let impl' = record impl { ipqh = true } in
      let es' = Event.took Resource.library_handle ∷ es in
      if not (env.ipq_create_handle impl.proto)
      then abandon daq_error max
          (codes "ipq_create_handle error " ++ (env.ipq_errstr ++ codes "\n")) impl es
      else if not env.ipq_set_mode
      then abandon daq_error max (codes "ipq_set_mode error " ++ (env.ipq_errstr ++ codes "\n"))
          impl' es'
      else open_ipq_output env max (ether_device impl.device) impl' es'

  -- From the buffer's allocation on.
  unfoldable pub take_ipq_buffer :
      IpqAnswers → ℕ → Option (List ℕ) → IpqImpl F → List Event → IpqOutcome F
  unfolding create_handle
  take_ipq_buffer env max none impl es =
      abandon daq_error_nomem max (codes "failed to allocate the ipq buffer!") impl es
  take_ipq_buffer env max (some buf) impl es =
      create_handle env max (record impl { buf = some buf }) (Event.took Resource.buffer ∷ es)

  -- What follows `ipq_daq_get_setup`.
  unfoldable pub after_ipq_setup : IpqAnswers → ℕ → IpqBuilt F → Option CString → IpqOutcome F
  unfolding take_ipq_buffer
  after_ipq_setup env max built none =
      take_ipq_buffer env max (env.malloc env.buf_size) built.impl built.events
  after_ipq_setup env max built (some text) = record {
    reply = record { code = daq_error; handle = none; errbuf = take (max - 1) text };
    events = ipq_daq_shutdown built.impl ++ built.events;
  }

  -- `ipq_daq_initialize`, when the configuration has no name.
  unfoldable pub initialize_ipq : IpqAnswers → Config → ℕ → IpqOutcome F
  unfolding after_ipq_setup ipq_daq_get_setup
  initialize_ipq env cfg max =
      if env.calloc
      then (let built =
            ipq_daq_get_setup env.strdup cfg fresh_ipq (Event.took Resource.context ∷ []) in
          after_ipq_setup env max built built.failure)
      else record {
        reply = record {
          code = daq_error_nomem;
          handle = none;
          errbuf = take (max - 1) (codes "ipq_daq_initialize: failed to allocate the ipq context!");
        };
        events = [];
      }

  -- `cfg->name && *(cfg->name)` comes first.
  unfoldable pub refuse_ipq_name : IpqAnswers → Config → CString → ℕ → IpqOutcome F
  unfolding initialize_ipq
  refuse_ipq_name env cfg [] max = initialize_ipq env cfg max
  refuse_ipq_name env cfg (c ∷ cs) max = record {
    reply = record {
      code = daq_error_inval;
      handle = none;
      errbuf =
          take (max - 1) (codes "The ipq DAQ module does not support interface or readback mode!");
    };
    events = [];
  }

  -- `ipq_daq_initialize`.
  unfoldable pub ipq_daq_initialize : IpqAnswers → Config → ℕ → IpqOutcome F
  unfolding refuse_ipq_name
  ipq_daq_initialize env cfg max = refuse_ipq_name env cfg cfg.name max
