-- ===== src/Dump/State.antt =====
-- os-daq-modules/daq_dump.c: the state of the module that dumps what passes, and the texts that it prints of a
-- packet.
use libdaq.Prelude.{
  ℕ, ℤ, pos, eqb_ℤ, CString, codes, List, [], ◌∷◌, ◌++◌, get_or, Option, none, some, Bool, leb,
  ◌==◌, if◌then◌else◌,
}
use libdaq.Common.{Stats, PktHdr, no_stats, inc64, max_daq_verdict, verdict_block, verdict_replace}
use libdaq.Dump.Text.{dec, hexdump}

-- What the module calls in libpcap: `P` is a pcap_t and `D` a pcap_dumper_t.
pub record Pcap (P D : Type 0) : Type 0 where
  pub open_dead : ℤ → ℤ → Option P
  pub dump_open : P → CString → Option D
  pub dump : D → PktHdr → List ℕ → D
  -- `ferror(pcap_dump_file(d))`
  pub failed : D → Bool

-- DumpImpl, less the delegate and its handle. A file is the bytes written to it; `callback` and
-- `user` stand in `daq_dump_capture`.
pub record Output (D : Type 0) : Type 0 where
  pub dump : Option D
  pub pcap_filename : Option CString
  pub text_out : Option CString
  pub text_filename : Option CString
  pub output_type : ℕ
  pub stats : Stats

-- DumpImpl with the delegate's handle.
pub record Impl (C D : Type 0) : Type 0 where
  pub handle : C
  pub out : Output D

-- DUMP_OUTPUT_PCAP and DUMP_OUTPUT_TEXT.
abbrev pub output_pcap : ℕ
output_pcap = 0x1

abbrev pub output_text : ℕ
output_text = 0x2

-- The structure that `calloc` gives, with the default output.
abbrev pub fresh_output : {D : Type 0} → Output D
fresh_output = record {
  dump = none;
  pcap_filename = none;
  text_out = none;
  text_filename = none;
  output_type = output_pcap;
  stats = no_stats;
}

-- `s_fwd`: all but block, blacklist and retry.
abbrev pub s_fwd : List ℕ
s_fwd = 1 ∷ 0 ∷ 1 ∷ 1 ∷ 0 ∷ 1 ∷ 0 ∷ []

abbrev pub dump_verdict_strings : List CString
dump_verdict_strings =
    codes "Pass"
    ∷ codes "Block"
    ∷ codes "Replace"
    ∷ codes "Whitelist"
    ∷ codes "Blacklist"
    ∷ codes "Ignore"
    ∷ codes "Retry"
    ∷ []

-- The start of each entry, `XX: %lu.%lu(%u):`.
unfoldable pub entry_head : CString → PktHdr → CString
entry_head tag hdr =
    tag
    ++ (codes ": "
        ++ (dec hdr.tv_sec
            ++ (codes "." ++ (dec hdr.tv_usec ++ (codes "(" ++ (dec hdr.caplen ++ codes "):"))))))

-- fprintf to a file that is open.
abbrev pub print : CString → Option CString → Option CString
print s none = none
print s (some written) = some (written ++ s)

-- The text of one verdict.
unfoldable pub verdict_entry : PktHdr → List ℕ → ℕ → CString
unfolding entry_head
verdict_entry hdr pkt verdict =
    (entry_head (codes "PV") hdr
      ++ (codes " " ++ (get_or dump_verdict_strings verdict [] ++ codes "\n")))
    ++ (if verdict == verdict_replace then hexdump pkt hdr.caplen (some (codes "    ")) else [])

-- The text of an injected packet.
unfoldable pub inject_entry : PktHdr → List ℕ → ℕ → ℤ → CString
inject_entry hdr bytes len reverse =
    entry_head (if eqb_ℤ reverse (pos 0) then codes "FI" else codes "RI") hdr
    ++ (codes " "
        ++ (dec len ++ (codes "\n" ++ (hexdump bytes len (some (codes "    ")) ++ codes "\n"))))

-- `if (verdict >= MAX_DAQ_VERDICT) verdict = DAQ_VERDICT_BLOCK;`
abbrev pub clamp_verdict : ℕ → ℕ
clamp_verdict verdict = if leb max_daq_verdict verdict then verdict_block else verdict

abbrev pub or_default : Option CString → CString → CString
or_default none d = d
or_default (some s) d = s

-- `impl->stats.packets_injected++`.
abbrev pub count_injected : {C D : Type 0} → Impl C D → Impl C D
count_injected impl = record impl {
  out = record impl.out {
    stats = record impl.out.stats { packets_injected = inc64 impl.out.stats.packets_injected };
  };
}
