-- ===== src/Dump/Tests.antt =====
-- A dump file that is the list of its packets and fails after two, and the theorems on it.
use libdaq.Prelude.{
  ℕ, ◌+◌, ◌%◌, ◌^◌, ℤ, pos, codes, List, [], ◌∷◌, ◌++◌, map, length, get_or, none, some, true, ◌≡◌,
  arith, ◌⊎◌, refl, str_eq, leb, not,
}
use libdaq.Common.{
  Config, DictEntry, daq_success, daq_error, inc64, mode_passive, state_initialized, state_started,
  state_stopped, verdict_replace,
}
use libdaq.Module.{Module, Callback, InitReply, in_place}
use libdaq.Samples.{sample_of, sample_header}
use libdaq.Dump.State.{
  verdict_entry, Pcap, Output, Impl, fresh_output, clamp_verdict, inject_entry, entry_head,
}
use libdaq.Dump.{
  forward, record_verdict, daq_dump_capture, start_text, start_dump, dump_daq_start, dump_daq_stop,
  dump_daq_inject, inject_dump, fail, abort_start, open_dump,
}
use libdaq.Dump.Text.{digits_of, dec, hexdump, hexdump_loop, separator}
use libdaq.Dump.Vars.{
  output_of, set_output, read_entry, read_entries, mode_of, load_mode_of, daq_dump_get_vars,
  init_delegate, init_with, dump_daq_initialize,
}
use libdaq.Dump.Capture.{Packet, run, passed, occurrences, log, extended, capture_lem}
use libdaq.Dump.Files.{sized, inject_lem, stop-start}
use libdaq.Dump.Hex.{read_hex, read-hexdump}
use libdaq.Dump.Options.{initialize_total}

program : Unit {0}
unfolding in_place run passed occurrences verdict_entry forward record_verdict daq_dump_capture
    start_text start_dump dump_daq_start dump_daq_stop dump_daq_inject inject_dump fail abort_start
    open_dump inject_entry entry_head digits_of dec hexdump hexdump_loop separator str_eq output_of
    set_output read_entry read_entries mode_of load_mode_of daq_dump_get_vars init_delegate
    init_with dump_daq_initialize
program = tt

abbrev file_pcap : Pcap (Unit {0}) (List Packet)
file_pcap = record {
  open_dead = λ dlt snap. some tt;
  dump_open = λ p name. some [];
  dump = λ d hdr pkt. d ++ ((hdr, pkt) ∷ []);
  failed = λ d. not (leb (length d) 2);
}

abbrev delegate : Module ℕ (Output (List Packet) × ℕ)
delegate = sample_of (Output (List Packet) × ℕ)

abbrev count_up : Callback ℕ
count_up = λ u hdr pkt. (u + 1, u, pkt)

abbrev always_nine : Callback ℕ
always_nine = λ u hdr pkt. (u, 9, pkt)

abbrev two_packets : List Packet
two_packets = (sample_header, 1 ∷ 2 ∷ 3 ∷ []) ∷ (sample_header, 4 ∷ 5 ∷ 6 ∷ []) ∷ []

abbrev open_output : Output (List Packet)
open_output = record fresh_output { dump = some []; text_out = some [] }

abbrev idle : Impl ℕ (List Packet)
idle = record { handle = state_initialized; out = record fresh_output { output_type = 3 } }

abbrev started : Impl ℕ (List Packet)
started = record {
  handle = state_started;
  out = record idle.out { dump = some []; text_out = some [] };
}

-- The second of two packets is blocked: only the first is in the file.
only_first :
    (run (daq_dump_capture file_pcap count_up) (open_output, 0) two_packets).0.0.dump
    ≡ some ((sample_header, 1 ∷ 2 ∷ 3 ∷ []) ∷ [])
unfolding program
only_first = refl

block_text :
    (run (daq_dump_capture file_pcap always_nine) (open_output, 0) two_packets).0.0.text_out
    ≡ some (codes "PV: 12.34(3): Block\nPV: 12.34(3): Block\n")
unfolding program
block_text = refl

-- The application writes over the first byte of each packet, and the dump file has it so.
abbrev replacing : Callback ℕ
replacing = λ u hdr pkt. (u + 1, verdict_replace, 0xff ∷ [])

replaced :
    (run (daq_dump_capture file_pcap replacing) (open_output, 0) two_packets).0.0.dump
    ≡ some ((sample_header, 0xff ∷ 2 ∷ 3 ∷ []) ∷ (sample_header, 0xff ∷ 5 ∷ 6 ∷ []) ∷ [])
unfolding program
replaced = refl

capture_lem_example :
    let ((out', u'), vs, qs) =
      run (daq_dump_capture file_pcap replacing) (open_output, 0) two_packets in
    let (last, given, left) = run replacing 0 two_packets in
    (u' ≡ last)
    × (vs ≡ map clamp_verdict given)
    × (qs ≡ left)
    × (log (λ d. d) out'.dump ≡ extended (λ d. d) open_output.dump (passed left given))
    × (get_or out'.stats.verdicts 2 0 % 2 ^ 64
        ≡ (get_or open_output.stats.verdicts 2 0 + occurrences 2 (map clamp_verdict given))
          % 2 ^ 64)
capture_lem_example =
    capture_lem file_pcap replacing (λ d. d) (λ d hdr pkt. refl) two_packets open_output 0 2 refl

stop-start_example : idle.out ≡ idle.out
unfolding program
stop-start_example =
    stop-start file_pcap delegate (λ name. true) idle started
      (record { handle = state_stopped; out = idle.out }) refl refl refl refl

inject_lem_example :
    (code : ℤ) × (impl' : Impl ℕ (List Packet)) × (dump_daq_inject file_pcap delegate started
        sample_header
        (7 ∷ 8 ∷ [])
        2
        (pos 1)
      ≡ some (code, impl'))
    × (log (λ d. d) impl'.out.dump
        ≡ extended (λ d. d) started.out.dump ((sized sample_header 2, 7 ∷ 8 ∷ []) ∷ []))
    × (impl'.out.stats.verdicts ≡ started.out.stats.verdicts)
    × (((code ≡ daq_success)
          × (impl'.out.stats.packets_injected ≡ inc64 started.out.stats.packets_injected)
          × (impl'.handle ≡ started.handle))
        ⊎ ((code ≡ daq_error)
            × (impl'.out.stats.packets_injected ≡ started.out.stats.packets_injected)
            × ((d : List Packet) × (impl'.out.dump ≡ some d) × (file_pcap.failed d ≡ true))))
inject_lem_example =
    inject_lem file_pcap delegate (λ d. d) (λ d hdr pkt. refl) (λ c s. c) refl started sample_header
      (7 ∷ 8 ∷ []) 2 (pos 1)

abbrev init : Config → InitReply ℕ
init = λ c. record { code = daq_success; handle = some state_initialized; errbuf = [] }

abbrev config_of : DictEntry → Config
config_of entry = record {
  name = codes "eth0";
  snaplen = pos 1518;
  timeout = 0;
  mode = mode_passive;
  flags = 0;
  values = entry ∷ [];
}

abbrev text_config : Config
text_config = config_of (record { key = codes "output"; value = some (codes "text") })

abbrev odd_config : Config
odd_config = config_of (record { key = codes "output"; value = some (codes "odd") })

-- strdup of NULL.
null_file_faults :
    dump_daq_initialize {D = List Packet} true
      (λ v. some v)
      256
      (some delegate)
      (config_of (record { key = codes "file"; value = none }))
    ≡ none
unfolding program
null_file_faults = refl

initialize_total_example :
    (reply : InitReply (Impl ℕ (List Packet))) × (dump_daq_initialize true
        (λ v. some v)
        256
        (some delegate)
        text_config
      ≡ some reply)
initialize_total_example =
    initialize_total delegate init refl (λ cfg ok. (state_initialized, refl)) true (λ v. some v) 256
      text_config ((codes "text", refl), tt)

read-hexdump_example :
    read_hex none (hexdump (0xab ∷ 0x0f ∷ 7 ∷ []) 3 (some (codes "    "))) ≡ 0xab ∷ 0x0f ∷ 7 ∷ []
read-hexdump_example =
    read-hexdump (0xab ∷ 0x0f ∷ 7 ∷ []) 3 (some (codes "    ")) (refl, (refl, (refl, (refl, tt))))
      (omega arith, (omega arith, (omega arith, tt)))
