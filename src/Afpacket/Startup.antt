-- ===== src/Afpacket/Startup.antt =====
-- os-daq-modules/daq_afpacket.c: what a successful `afpacket_daq_initialize` has opened.
use libdaq.Prelude.{◌*◌, ◌%◌, ◌≤◌, CString, length, Option, Bool, false, ◌≡◌, ◌⊎◌}
use libdaq.Common.{daq_error, daq_error_nomem}
use libdaq.Afpacket.Options.{buffer_bytes, num_rings, Ready, Initialized}

-- What is known of a context that was initialized.
record Started (passive : Bool) (env : Option CString) (r : Ready) : Type 0 where
  sized : length r.afpc.instances ≡ r.intf_count
  some_device : 1 ≤ r.intf_count
  bounded : r.intf_count ≤ 31
  pairs : passive ≡ false → r.intf_count % 2 ≡ 0
  fits : r.size * num_rings r.afpc.instances ≤ buffer_bytes r.settings.size_str env

abbrev InitResult : Bool → Option CString → Initialized → Type 0
InitResult passive env (Initialized.initialized r) = Started passive env r
InitResult passive env (Initialized.init_failed code text) =
    (code ≡ daq_error) ⊎ (code ≡ daq_error_nomem)
InitResult passive env Initialized.init_faulted = ⊥
