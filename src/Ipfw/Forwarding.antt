-- ===== src/Ipfw/Forwarding.antt =====
-- os-daq-modules/daq_ipfw.c: `ipfw_daq_acquire` does what the description says.
use libdaq.Prelude.{ℕ, ℤ, pos, List, take, Option, some, ◌≡◌}
use libdaq.Ipfw.Acquire.{Analysis, Received, Session}
use libdaq.Ipfw.Decisions.{decide}
use libdaq.Ipfw.Packet.{Handled}

module _ {F U G : Type 0} (filter : F → List ℕ → ℕ → ℕ) (callback : Analysis U G) where
  -- The result of the loop from `s` on, when `m` more datagrams are to be handled.
  abbrev Does : ℕ → List Received → Session F G → Option ℤ × Session F G → Type 0
  Does m rs s (code, s') =
      let (last, ds) = decide filter callback s.impl.fcode s.impl.snaplen s.app (take m rs) in
      (code ≡ some (pos 0)) × Handled m s s' last ds
