-- ===== src/Ipfw/Tests.antt =====
-- A filter on the first byte and an application that answers by the length, and the theorems on the
-- ipfw module.
use libdaq.Prelude.{
  ℕ, ◌+◌, ◌*◌, ◌/◌, ◌%◌, leb, pos, codes, List, [], ◌∷◌, All, Option, none, some, true, false,
  if◌then◌else◌, ◌≡◌, ◌⊎◌, refl,
}
use libdaq.Common.{Config, daq_success, daq_error, daq_error_nomem, state_initialized, mode_inline}
use libdaq.Module.{InitReply, in_place}
use libdaq.Ipfw.{SockAddrIn, IpfwImpl, fresh_ipfw}
use libdaq.Ipfw.Setup.{magnitude, default_port, ipfw_daq_initialize}
use libdaq.Ipfw.Acquire.{Analysis, Received, Session, ipfw_daq_acquire}
use libdaq.Ipfw.Decisions.{quiet_rounds}
use libdaq.Ipfw.Ports.{IsPort, IsPortEntry, last_port, ipfw_initialize_lem}

-- Bytes from 128 on are kept back.
abbrev sample_filter : ℕ → List ℕ → ℕ → ℕ
sample_filter code [] len = 0
sample_filter code (b ∷ bs) len = if leb b code then 1 else 0

abbrev by_length : Analysis ℕ ℕ
by_length user seen hdr data' = (seen + 1, hdr.caplen, 7 ∷ [])

abbrev sender : ℕ → SockAddrIn
sender port = record { sin_family = 2; s_addr = 1; sin_port = port }

abbrev datagram : ℕ → List ℕ → Received
datagram port bytes = record {
  tv_sec = 1;
  tv_usec = 2;
  bytes = bytes;
  from = sender port;
  sends = true;
  strerror = [];
  breaks = false;
}

abbrev session : Session ℕ ℕ
session = record {
  impl = record fresh_ipfw { fcode = some 127; snaplen = 4; buf = 0 ∷ 0 ∷ 0 ∷ 0 ∷ [] };
  app = 0;
  wire = [];
}

-- The application writes over the first byte. A datagram of one byte is blocked, one of two goes back, one is kept from the application, and one
-- is longer than the buffer.
abbrev rounds : List (Option Received)
rounds =
    some (datagram 1 (5 ∷ []))
    ∷ none
    ∷ some (datagram 2 (5 ∷ 6 ∷ []))
    ∷ some (datagram 3 (200 ∷ []))
    ∷ none
    ∷ some (datagram 4 (1 ∷ 2 ∷ 3 ∷ 4 ∷ 5 ∷ []))
    ∷ some (datagram 5 [])
    ∷ []

four_rounds :
    (ipfw_daq_acquire sample_filter by_length (pos 4) none (quiet_rounds rounds) session).1.wire
    ≡ record { bytes = 7 ∷ 6 ∷ []; dest = sender 2 }
      ∷ record { bytes = 200 ∷ []; dest = sender 3 }
      ∷ []
unfolding ipfw_daq_acquire quiet_rounds in_place
four_rounds = refl

abbrev config : Config
config = record {
  name = codes "";
  snaplen = pos 0;
  timeout = 1;
  mode = mode_inline;
  flags = 0;
  values = record { key = codes "port"; value = some (codes "0x1F90") } ∷ [];
}

swapped_bytes : ℕ → ℕ
swapped_bytes n = n % 256 * 256 + n / 256

ipfw_initialize_lem_example :
    let r : InitReply (IpfwImpl ℕ) =
      ipfw_daq_initialize swapped_bytes true (λ n. some []) config 256 in
    (((r.code ≡ daq_error) × ¬ All IsPortEntry config.values × (r.handle ≡ none))
      ⊎ ((r.code ≡ daq_error_nomem)
          × ((true ≡ false) ⊎ (◌≡◌ {A = Option (List ℕ)} (some []) none))
          × (r.handle ≡ none)))
    ⊎ ((r.code ≡ daq_success)
        × (impl : IpfwImpl ℕ) × (r.handle ≡ some impl)
        × All IsPortEntry config.values
        × IsPort impl.port
        × (impl.port ≡ last_port config.values default_port)
        × (impl.sin.sin_port ≡ swapped_bytes (magnitude impl.port))
        × (some [] ≡ some impl.buf)
        × (impl.state ≡ state_initialized))
ipfw_initialize_lem_example = ipfw_initialize_lem swapped_bytes true (λ n. some []) config 256
