-- ===== src/Lib.antt =====
-- LibDAQ, the data acquisition library: an application loads modules, picks one and drives an
-- instance of it through api/. The modules under os-daq-modules/ acquire packets, ask the
-- application for a verdict on each and act on it.
--
-- Files and what they model:
-- Prelude and its children: shared names, Boolean tests, lists, integers, C strings.
-- Common: api/daq_common.h, the return codes, enums and structures.
-- Module: api/daq_api.h, a module's table of function pointers, each of which may be NULL.
-- Names: api/daq_base.c, the name tables (daq_verdict_string, daq_mode_string, daq_state_string).
-- Config: api/daq_base.c, the dictionary (daq_config_get_value, daq_config_set_value,
-- daq_config_clear_value, daq_config_clear_values). Its node list is a list of entries.
-- Registry: api/daq_base.c, the module list (register_module, daq_load_module, daq_load_modules,
-- daq_unload_modules, daq_find_module); Registry/Listing: daq_get_module_list and
-- daq_free_module_list with their heap blocks counted.
-- ModOps: api/daq_mod_ops.c, every function on an instance. ModOps/Calls puts the calls into one data
-- type; ModOps/Contract is an assumption on how the functions of a module change the status of
-- an instance, which no header states; Ipq/Life fills it for the ipq module.
-- Dump: os-daq-modules/daq_dump.c, the module that writes what passes to a pcap file and a text file
-- while its delegate, any module, does the rest (dump_daq_start, dump_daq_stop, dump_daq_acquire,
-- dump_daq_inject, daq_dump_capture, and what only passes on). Dump/State: the state; Dump/Text: its printing (hexdump);
-- Dump/Vars: daq_dump_get_vars and dump_daq_initialize; Dump/Flow: dump_daq_modify_flow and
-- dump_daq_dp_add_dc.
-- Afpacket: os-daq-modules/daq_afpacket.c. Afpacket/Layout: calculate_layout and create_ring;
-- Afpacket/Ring: set_up_ring; Afpacket/Peers: create_bridge, afpacket_daq_inject; Afpacket/Vlan,
-- Afpacket/Analyse and Afpacket/Acquire: afpacket_daq_acquire and afpacket_daq_set_filter;
-- Afpacket/Devices and Afpacket/Options: create_instance and afpacket_daq_initialize; Afpacket/Stats:
-- update_hw_stats, reset_stats, af_packet_close and the small functions of its table.
-- Pcap: os-daq-modules/daq_pcap.c, over a record of libpcap's functions. Pcap/Open: pcap_daq_open;
-- Pcap/Hardware: update_hw_stats and pcap_daq_reset_stats; Pcap/Init: pcap_daq_initialize and
-- translate_PCAP_FRAMES; Pcap/Filter: pcap_daq_set_filter and pcap_daq_start; Pcap/Acquire:
-- pcap_process_loop and pcap_daq_acquire; Pcap/Table: the other functions of its table.
-- Ipfw: os-daq-modules/daq_ipfw.c. Ipfw/Setup: ipfw_daq_get_setup and ipfw_daq_initialize;
-- Ipfw/Acquire: SetPktHdr and ipfw_daq_acquire; Ipfw/Decisions: a description of the same without loop
-- and buffer; the parent has the rest.
-- Counting: how the counters of DAQ_Stats_t go up.
-- Netfilter: what os-daq-modules/daq_nfq.c and os-daq-modules/daq_ipq.c share: verdicts for the kernel, resources,
-- and how many packets a count stands for.
-- Nfq: os-daq-modules/daq_nfq.c. Nfq/Setup: nfq_daq_get_setup; Nfq/Init: nfq_daq_initialize; Nfq/Acquire:
-- SetPktHdr, daq_nfq_callback and nfq_daq_acquire; Nfq/Decisions: a description of the same without loop and
-- buffer; the parent has the rest.
-- Ipq: os-daq-modules/daq_ipq.c, in the same way; Ipq/Life: its table ipq_daq_module_data.
-- Samples: test data.
--
-- A function that changes state takes the state and returns the new one. A pointer that may be NULL
-- is an Option. Where a call goes through a NULL pointer or an access leaves its array, the model's
-- result is none. Codes are integers (-1 is negsuc 0), enums and unsigned words natural numbers, with
-- the wrap of a word written out where the code can reach it.
--
-- What the source gets from outside is an argument: whether an allocation succeeds, what stat, dlopen,
-- dlsym and readdir answer, what a module's functions do, what libpcap and the kernel do.
--
-- Loops recur on a list or on a count, but for these. The digits of n have n + 1 rounds, at least one for each digit. The loop of
-- calculate_layout that doubles the block size has 33, after which an unsigned int has been shifted
-- to 0; translate_PCAP_FRAMES doubles an int at most 31 times before it overflows. The loop of
-- afpacket_daq_initialize over the device string has as many rounds as the string has characters,
-- since each takes one at least. pcap_daq_acquire has the number of rounds as an argument,
-- ipfw_daq_acquire, nfq_daq_acquire and ipq_daq_acquire the list of what happens in their rounds,
-- and afpacket_daq_acquire a number of passes, after which its result says that it still runs. A
-- recvfrom of ipfw that is interrupted gives length 2^32 - 1; what the code then reads beyond its
-- buffer is not in the model.
--
-- Not modelled: the WIN32 branches; printing (daq_print_stats, the DEBUG and stderr messages); the
-- sfbpf/ directory, which is a copy of libpcap's filter compiler and is used by some modules through
-- sfbpf_compile and sfbpf_filter; the start of an instance in daq_afpacket.c; daq_netmap.c and
-- daq_dpdk.c under os-daq-modules/, whose state is mostly in the libraries that they use.
pub mod Afpacket
pub mod Common
pub mod Config
pub mod Counting
pub mod Dump
pub mod Ipfw
pub mod Ipq
pub mod ModOps
pub mod Module
pub mod Names
pub mod Netfilter
pub mod Nfq
pub mod Pcap
pub mod Prelude
pub mod Registry
pub mod Samples
