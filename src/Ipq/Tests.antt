-- ===== src/Ipq/Tests.antt =====
-- A filter on the first byte, an application that answers by the length and overwrites what it sees, and the
-- theorems on the ipq module.
use libdaq.Prelude.{
  str_eq, ℕ, ℤ, Option, arith, ◌+◌, pos, CString, codes, List, [], ◌∷◌, ◌++◌, length, none, some,
  Bool, true, false, leb, replicate, if◌then◌else◌, ◌≡◌, ◌==◌, refl,
}
use libdaq.Common.{
  Config, Stats, daq_success, daq_error, mode_inline, verdict_replace, state_initialized,
  state_stopped,
}
use libdaq.Module.{Module, Callback}
use libdaq.ModOps.{
  daq_set_filter, daq_start, daq_acquire, daq_breakloop, daq_stop, when_status, refuse,
}
use libdaq.ModOps.Query.{daq_check_status, daq_get_snaplen}
use libdaq.ModOps.Calls.{Call, perform}
use libdaq.ModOps.Contract.{Moves}
use libdaq.ModOps.History.{run}
use libdaq.Ipq.Life.{
  IpqWorld, IpqHandle, ipq_daq_module_data, acquire_on, status_in, ipq_run-Moves,
  ipq_stopped_for_good,
}
use libdaq.Counting.{Counted}
use libdaq.Netfilter.{Analysis, nf_accept, nf_drop}
use libdaq.Netfilter.Limits.{limit_of}
use libdaq.Nfq.Decisions.{verdicts_of}
use libdaq.Ipq.{
  fresh_ipq, ipq_daq_set_filter, ipq_daq_start, ipq_daq_stop, ipq_daq_breakloop,
  ipq_daq_check_status, ipq_daq_set_errbuf,
}
use libdaq.Ipq.Init.{IpqAnswers, ipq_daq_initialize}
use libdaq.Ipfw.Acquire.{count_of}
use libdaq.Ipq.Acquire.{IpqMoment, IpqPacket, IpqRound, IpqSession, ipq_daq_acquire}
use libdaq.Ipq.Decisions.{ending, taken, ipq_verdicts, ipq_decide}
use libdaq.Ipq.Forwarding.{ipq_acquire_lem}
use libdaq.Ipq.Starting.{IpqEnds, ipq_initialize_lem}

abbrev sample_filter : ℕ → List ℕ → ℕ → ℕ
sample_filter code [] len = 0
sample_filter code (b ∷ bs) len = if leb b code then 1 else 0

abbrev by_length : Analysis ℕ ℕ
by_length user seen hdr bytes = (seen + 1, hdr.pktlen, replicate hdr.caplen 9)

abbrev calm : Bool → IpqMoment
calm accepts = record { tv_sec = 1; tv_usec = 2; accepts = accepts; errstr = []; breaks = false }

abbrev packet : ℕ → List ℕ → IpqPacket
packet id bytes = record { packet_id = id; timestamp_sec = 0; timestamp_usec = 0; payload = bytes }

abbrev session : IpqSession ℕ ℕ
session = record { impl = record fresh_ipq { fcode = some 127; snaplen = 1 }; app = 0; given = [] }

-- A packet of one byte is blocked, a message is passed over, one of two bytes is replaced in the byte that
-- the application sees, and for one that is kept back ipq_set_verdict fails.
abbrev rounds : List IpqRound
rounds =
    IpqRound.queued (calm true) (packet 7 (5 ∷ []))
    ∷ IpqRound.other_message (codes "2")
    ∷ IpqRound.queued (calm true) (packet 8 (5 ∷ 6 ∷ []))
    ∷ IpqRound.queued (calm false) (packet 9 (200 ∷ []))
    ∷ IpqRound.nothing
    ∷ []

three_verdicts :
    (ipq_daq_acquire sample_filter by_length (pos 0) none rounds session).1.given
    ≡ record { packet_id = 7; verdict = nf_drop; bytes = [] }
      ∷ record { packet_id = 8; verdict = nf_accept; bytes = 9 ∷ 6 ∷ [] }
      ∷ record { packet_id = 9; verdict = nf_accept; bytes = [] }
      ∷ []
unfolding ipq_daq_acquire
three_verdicts = refl

refused_verdict :
    (ipq_daq_acquire sample_filter by_length (pos 0) none rounds session).0 ≡ some daq_error
unfolding ipq_daq_acquire
refused_verdict = refl

ipq_acquire_lem_example :
    let (code, s') = ipq_daq_acquire sample_filter by_length (pos 0) none rounds session in
    let ps = taken (limit_of (pos 0)) rounds in
    let (last, ds) = ipq_decide sample_filter by_length none (some 127) 1 0 ps in
    (code ≡ ending (limit_of (pos 0)) rounds)
    × ((st : Stats) × (error : CString) × (s' ≡ record {
      impl = record session.impl { count = count_of (pos 0); stats = st; error = error };
      app = last;
      given = [] ++ ipq_verdicts false ds;
    })
        × Counted (length ps) session.impl.stats st (verdicts_of ds))
ipq_acquire_lem_example =
    ipq_acquire_lem sample_filter by_length none (pos 0) rounds session (refl, (refl, (refl, tt)))
      refl

abbrev answers : IpqAnswers
answers = record {
  calloc = true;
  strdup = λ s. some s;
  malloc = λ n. some [];
  buf_size = 65600;
  ipq_create_handle = λ p. p == 10;
  ipq_set_mode = true;
  ipq_errstr = [];
  eth_open = λ s. true;
  ip_open = false;
}

abbrev config : Config
config = record {
  name = codes "";
  snaplen = pos 0;
  timeout = 1500;
  mode = mode_inline;
  flags = 0;
  values =
      record { key = codes "proto"; value = some (codes "IP6") }
      ∷ record { key = codes "device"; value = some (codes "eth0") }
      ∷ [];
}

link_opened : (ipq_daq_initialize {F = ℕ} answers config 256).reply.code ≡ daq_success
unfolding ipq_daq_initialize str_eq
link_opened = refl

ipq_initialize_lem_example : IpqEnds {F = ℕ} answers (ipq_daq_initialize answers config 256)
ipq_initialize_lem_example = ipq_initialize_lem answers config 256

abbrev world : IpqWorld ℕ
world = record {
  answers = answers;
  max = 256;
  compile = λ snaplen dlt text. some 127;
  strdup = λ text. some text;
  filter = sample_filter;
  eth_send = λ bytes. pos (length bytes);
  ip_send = λ bytes. pos (length bytes);
  rounds = λ k. rounds;
}

abbrev handle_in : ℕ → IpqHandle ℕ
handle_in state = record { impl = record session.impl { state = state }; given = []; acquired = 0 }

abbrev replacing : Callback ℕ
replacing app hdr bytes = (app + 1, verdict_replace, 9 ∷ [])

abbrev life : List (Call ℕ)
life =
    Call.set_filter (some (codes "tcp"))
    ∷ Call.start
    ∷ Call.acquire (pos 2) (some replacing) 0
    ∷ Call.breakloop
    ∷ Call.stop
    ∷ Call.start
    ∷ []

-- The status of the instance that is left, and how many verdicts the kernel got.
abbrev seen_of : Option (Option (IpqHandle ℕ)) → Option (ℕ × ℕ)
seen_of none = none
seen_of (some none) = none
seen_of (some (some h)) = some (status_in h, length h.given)

life_stops :
    seen_of (run (ipq_daq_module_data world) life (some (handle_in state_initialized)))
    ≡ some (state_stopped, 2)
unfolding run perform ipq_daq_module_data daq_set_filter daq_start daq_acquire daq_breakloop
    daq_stop when_status refuse ipq_daq_set_filter ipq_daq_start ipq_daq_stop ipq_daq_breakloop
    ipq_daq_check_status ipq_daq_set_errbuf acquire_on ipq_daq_acquire
life_stops = refl

ipq_run-Moves_example :
    Moves status_in state_initialized
      (run (ipq_daq_module_data world) life (some (handle_in state_initialized)))
ipq_run-Moves_example =
    ipq_run-Moves world life (handle_in state_initialized) (omega arith) (omega arith)

ipq_stopped_for_good_example :
    let m : Module (IpqHandle ℕ) ℕ = ipq_daq_module_data world in
    (state_stopped ≡ state_stopped)
    × ((code : ℤ) (left : Option (IpqHandle ℕ))
        → daq_start (some m) (some (handle_in state_stopped)) ≡ some (code, left)
        → code ≡ daq_error)
    × ((code : ℤ) (left : Option (IpqHandle ℕ)) (user' : ℕ)
        → daq_acquire (some m) (some (handle_in state_stopped)) (pos 1) (some replacing) 5
          ≡ some (code, left, user')
        → (code ≡ daq_error) × (user' ≡ 5))
unfolding run perform ipq_daq_module_data daq_check_status daq_get_snaplen
ipq_stopped_for_good_example =
    ipq_stopped_for_good world (Call.check_status ∷ Call.get_snaplen ∷ []) (handle_in state_stopped)
      (handle_in state_stopped) (pos 1) (some replacing) 5 refl refl
