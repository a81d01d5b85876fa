-- ===== src/Samples.antt =====
-- Test data that the tests of several components share: a module whose context is its status and
-- whose other pointers are the simplest functions.
use libdaq.Prelude.{ℕ, pos, codes, [], none, some}
use libdaq.Common.{daq_success, state_initialized, state_started, state_stopped, no_stats, PktHdr}
use libdaq.Module.{Module, daq_api_version}

abbrev pub sample_of : (U : Type 0) → Module ℕ U
sample_of U = record {
  api_version = daq_api_version;
  module_version = 3;
  name = codes "sample";
  type = 0x0f;
  initialize =
      some (λ c. record { code = daq_success; handle = some state_initialized; errbuf = [] });
  set_filter = some (λ c f. (c, daq_success));
  start = some (λ c. (state_started, daq_success));
  acquire = some (λ c u n f g. (c, u, daq_success));
  inject = some (λ c h p n r. (c, daq_success));
  breakloop = some (λ c. (c, daq_success));
  stop = some (λ c. (state_stopped, daq_success));
  shutdown = some (λ c. tt);
  check_status = some (λ c. c);
  get_stats = some (λ c s. (c, no_stats, daq_success));
  reset_stats = some (λ c. c);
  get_snaplen = some (λ c. pos 1518);
  get_capabilities = some (λ c. 0);
  get_datalink_type = some (λ c. pos 1);
  get_errbuf = some (λ c. []);
  set_errbuf = some (λ c s. c);
  get_device_index = some (λ c d. pos 1);
  modify_flow = none;
  hup_prep = none;
  hup_apply = none;
  hup_post = none;
  dp_add_dc = none;
  query_flow = none;
}

abbrev pub sample : Module ℕ ℕ
sample = sample_of ℕ

-- The same module, in an older version.
abbrev pub older_sample : Module ℕ ℕ
older_sample = record sample { module_version = 2 }

-- A module of another name that lacks `get_datalink_type` only.
abbrev pub no_datalink : Module ℕ ℕ
no_datalink = record sample { name = codes "nolink"; get_datalink_type = none }

abbrev pub sample_header : PktHdr
sample_header = record {
  tv_sec = 12;
  tv_usec = 34;
  caplen = 3;
  pktlen = 60;
  ingress_index = pos 1;
  egress_index = pos 2;
  ingress_group = pos 0;
  egress_group = pos 0;
  flags = 0;
  address_space_id = 0;
}
