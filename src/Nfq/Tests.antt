-- ===== src/Nfq/Tests.antt =====
-- A filter on the first byte, an application that answers by the length and overwrites the bytes, a library
-- whose datagrams are the packet's number and its bytes, and the theorems on the nfq module.
use libdaq.Prelude.{
  CString, to_int, ℕ, ◌+◌, ℤ, pos, codes, List, [], ◌∷◌, ◌++◌, length, Option, none, some, true,
  false, leb, replicate, if◌then◌else◌, ◌≡◌, refl,
}
use libdaq.Common.{Config, Stats, daq_error, state_started, mode_inline}
use libdaq.Ipfw.Acquire.{count_of}
use libdaq.Counting.{Counted}
use libdaq.Netfilter.{Analysis, nf_accept, nf_drop}
use libdaq.Nfq.{fresh_nfq}
use libdaq.Nfq.Init.{Answers, nfq_daq_initialize}
use libdaq.Nfq.Acquire.{Queued, Moment, Round, Session, nfq_daq_acquire}
use libdaq.Netfilter.Limits.{limit_of}
use libdaq.Nfq.Decisions.{ending, taken, cut_off, counted_if, kernel_verdicts, verdicts_of, decide}
use libdaq.Nfq.Forwarding.{nfq_acquire_lem}
use libdaq.Nfq.Opening.{Ends}
use libdaq.Nfq.Starting.{nfq_initialize_lem}

abbrev sample_filter : ℕ → List ℕ → ℕ → ℕ
sample_filter code [] len = 0
sample_filter code (b ∷ bs) len = if leb b code then 1 else 0

abbrev by_length : Analysis ℕ ℕ
by_length user seen hdr bytes = (seen + 1, hdr.pktlen, replicate hdr.caplen 9)

abbrev sample_packet : List ℕ → Queued
sample_packet [] = record { packet_id = none; payload = none; timestamp = none; physindev = 0 }
sample_packet (id ∷ bytes) = record {
  packet_id = some id;
  payload = some bytes;
  timestamp = some (1, 2);
  physindev = 3;
}

abbrev S : Type 0
S = Session ℕ ℕ ℕ

abbrev handle_one : (S → Queued → ℤ × S) → List ℕ → S → ℤ × S
handle_one f bytes s = f s (sample_packet bytes)

abbrev calm : Moment
calm = record { tv_sec = 1; tv_usec = 2; strerror = codes "text"; breaks = false }

abbrev started : S
started = record {
  impl = record fresh_nfq { fcode = some 127; snaplen = 3; state = state_started; buf = some [] };
  app = 0;
  given = [];
}

-- A packet of one byte is blocked, one of two is replaced, one is kept from the application, and one of
-- four is cut.
abbrev three : List Round
three =
    Round.arrived calm (7 ∷ 5 ∷ [])
    ∷ Round.timed_out
    ∷ Round.arrived calm (8 ∷ 5 ∷ 6 ∷ [])
    ∷ Round.arrived calm []
    ∷ Round.arrived calm (9 ∷ 200 ∷ [])
    ∷ []

three_packets :
    (nfq_daq_acquire sample_filter by_length handle_one
      (pos 3)
      none
      (three ++ (Round.select_interrupted ∷ []))
      started).1.given
    ≡ record { packet_id = 7; verdict = nf_drop; bytes = [] }
      ∷ record { packet_id = 8; verdict = nf_accept; bytes = 9 ∷ 9 ∷ [] }
      ∷ record { packet_id = 9; verdict = nf_accept; bytes = [] }
      ∷ []
unfolding nfq_daq_acquire
three_packets = refl

-- A packet without bytes ends it.
cut_packet :
    (nfq_daq_acquire sample_filter by_length handle_one
      (pos 0)
      none
      (three ++ (Round.arrived calm (4 ∷ []) ∷ []))
      started).0
    ≡ some daq_error
unfolding nfq_daq_acquire
cut_packet = refl

nfq_acquire_lem_example :
    let (code, s') =
      nfq_daq_acquire sample_filter by_length handle_one (pos 3) none three started in
    let ps = taken sample_packet true (limit_of (pos 3)) three in
    let (last, ds) = decide sample_filter by_length none (some 127) 3 0 ps in
    (code ≡ ending sample_packet true (limit_of (pos 3)) three)
    × ((st : Stats) × (buf : Option (List ℕ)) × (error : CString) × (s' ≡ record {
      impl = record started.impl {
        count = count_of (pos 3);
        user_data = none;
        stats = counted_if (cut_off sample_packet true (limit_of (pos 3)) three) st;
        buf = buf;
        error = error;
      };
      app = last;
      given = [] ++ kernel_verdicts false ds;
    })
        × Counted (length ps) started.impl.stats st (verdicts_of ds))
nfq_acquire_lem_example =
    nfq_acquire_lem sample_filter by_length handle_one sample_packet (λ f bytes s. refl) (pos 3)
      none three started (refl, (refl, (refl, (refl, tt)))) refl

abbrev answers : Answers
answers = record {
  calloc = true;
  strdup = λ s. some s;
  malloc = λ n. some [];
  nfq_open = true;
  nfq_unbind_pf = λ pf. false;
  nfq_bind_pf = λ pf. true;
  nfq_create_queue = λ n. true;
  nfq_set_mode = true;
  nfq_set_queue_maxlen = λ n. true;
  nfq_fd = pos 5;
  eth_open = λ s. false;
  ip_open = true;
}

abbrev config : Config
config = record {
  name = codes "";
  snaplen = pos 0;
  timeout = 1500;
  mode = mode_inline;
  flags = 0;
  values =
      record { key = codes "queue"; value = some (codes "0x10") }
      ∷ record { key = codes "proto"; value = some (codes "IP6") }
      ∷ record { key = codes "device"; value = some (codes "eth0") }
      ∷ [];
}

-- eth_open fails, and what was taken before is given back.
device_fails : (nfq_daq_initialize {F = ℕ} {U = ℕ} answers config 256).reply.code ≡ daq_error
unfolding nfq_daq_initialize to_int
device_fails = refl

nfq_initialize_lem_example : Ends {F = ℕ} {U = ℕ} answers (nfq_daq_initialize answers config 256)
nfq_initialize_lem_example = nfq_initialize_lem answers config 256
