-- ===== src/Ipfw/Decisions.antt =====
-- os-daq-modules/daq_ipfw.c: a description of what becomes of datagrams that knows neither the loop nor
-- the buffer of `ipfw_daq_acquire`.
use libdaq.Prelude.{
  ℕ, List, [], ◌∷◌, length, take, Option, none, some, Bool, true, false, ◌==◌, ◌||◌, if◌then◌else◌,
  ◌≡◌,
}
use libdaq.Module.{in_place}
use libdaq.Ipfw.{Datagram}
use libdaq.Ipfw.Acquire.{Analysis, Received, Round, set_pkt_hdr, ipfw_verdict, keeps_back}

-- What is decided of a datagram, which is as the application left it: none if the filter keeps it from the application, else the verdict.
pub record Decision : Type 0 where
  pub packet : Datagram
  pub sends : Bool
  pub verdict : Option ℕ

-- The verdicts after which a packet goes on: PASS, REPLACE, WHITELIST and IGNORE.
abbrev pub lets_pass : Option ℕ → Bool
lets_pass none = true
lets_pass (some v) = v == 0 || (v == 2 || (v == 3 || v == 5))

-- The datagrams that go back to where they came from.
unfoldable pub sent_back : Bool → List Decision → List Datagram
sent_back passive [] = []
sent_back passive (d ∷ ds) =
    let rest = sent_back passive ds in
    if passive || lets_pass d.verdict then (if d.sends then d.packet ∷ rest else rest) else rest

-- The verdicts as they are counted, one after the other.
unfoldable pub verdicts_of : List Decision → List ℕ
verdicts_of [] = []
verdicts_of (d ∷ ds) =
    let rest = verdicts_of ds in elim d.verdict [ none ↦ rest | some v ↦ ipfw_verdict v ∷ rest ]

module _ {F U G : Type 0} (filter : F → List ℕ → ℕ → ℕ) (callback : Analysis U G) where
  -- The application's state and the decisions on datagrams after each other.
  unfoldable pub decide : Option F → ℕ → G → List Received → G × List Decision
  decide fcode snaplen app [] = (app, [])
  decide fcode snaplen app (r ∷ rs) =
      let bytes = take snaplen r.bytes in
      let packet : Datagram = record { bytes = bytes; dest = r.from } in
      let (app', v, left) = callback none app (set_pkt_hdr r (length bytes)) bytes in
      let changed : Datagram = record { bytes = in_place bytes left; dest = r.from } in
      let (last, ds) = decide fcode snaplen app rs in
      let (last', ds') = decide fcode snaplen app' rs in
      if keeps_back filter callback fcode bytes (length bytes)
      then (last, record { packet = packet; sends = r.sends; verdict = none } ∷ ds)
      else (last', record { packet = changed; sends = r.sends; verdict = some v } ∷ ds')

-- Rounds in which a datagram arrives, or none.
unfoldable pub quiet_rounds : List (Option Received) → List Round
quiet_rounds [] = []
quiet_rounds (none ∷ rs) = Round.timed_out ∷ quiet_rounds rs
quiet_rounds (some r ∷ rs) = Round.arrived r ∷ quiet_rounds rs

unfoldable pub arrivals : List (Option Received) → List Received
arrivals [] = []
arrivals (none ∷ rs) = arrivals rs
arrivals (some r ∷ rs) = r ∷ arrivals rs

-- No call of `ipfw_daq_breakloop` in between.
abbrev pub Unbroken : List (Option Received) → Type 0
Unbroken [] = Unit
Unbroken (none ∷ rs) = Unbroken rs
Unbroken (some r ∷ rs) = (r.breaks ≡ false) × Unbroken rs
