-- ===== src/Ipq/Decisions.antt =====
-- os-daq-modules/daq_ipq.c: a description of what becomes of queued packets, and of how
-- `ipq_daq_acquire` ends, that knows no counters and no session.
use libdaq.Prelude.{
  ℕ, ℤ, pos, List, [], ◌∷◌, ◌++◌, length, take, drop, Option, none, some, Bool, false,
  if◌then◌else◌, ◌≡◌,
}
use libdaq.Common.{daq_error}
use libdaq.Ipfw.Decisions.{lets_pass}
use libdaq.Netfilter.{Analysis, NfVerdict, nf_accept, nf_drop}
use libdaq.Netfilter.Limits.{has_more, one_less}
use libdaq.Nfq.Acquire.{held_back}
use libdaq.Nfq.Decisions.{Decision, replaces}
use libdaq.Ipq.Acquire.{IpqMoment, IpqPacket, IpqRound, ipq_hdr}

-- The code, if there are rounds enough for it.
unfoldable pub ending : Option ℕ → List IpqRound → Option ℤ
ending left [] = if has_more left then none else some (pos 0)
ending left (IpqRound.read_failed text ∷ rs) =
    if has_more left then some daq_error else some (pos 0)
ending left (IpqRound.nothing ∷ rs) = some (pos 0)
ending left (IpqRound.other_message text ∷ rs) =
    let rest = ending left rs in if has_more left then rest else some (pos 0)
ending left (IpqRound.queued m p ∷ rs) =
    let rest = ending (one_less left) rs in
    if has_more left then (if m.accepts then rest else some daq_error) else some (pos 0)

-- A packet, and when it is handled.
pub record IpqArrival : Type 0 where
  pub moment : IpqMoment
  pub packet : IpqPacket

-- The packets that are handled.
unfoldable pub taken : Option ℕ → List IpqRound → List IpqArrival
taken left [] = []
taken left (IpqRound.read_failed text ∷ rs) = []
taken left (IpqRound.nothing ∷ rs) = []
taken left (IpqRound.other_message text ∷ rs) =
    let rest = taken left rs in if has_more left then rest else []
taken left (IpqRound.queued m p ∷ rs) =
    let rest = taken (one_less left) rs in
    let first : IpqArrival = record { moment = m; packet = p } in
    if has_more left then (if m.accepts then first ∷ rest else first ∷ []) else []

-- One verdict for the kernel on each packet, in order.
unfoldable pub ipq_verdicts : Bool → List Decision → List NfVerdict
ipq_verdicts passive [] = []
ipq_verdicts passive (d ∷ ds) =
    (if passive
      then record { packet_id = d.packet_id; verdict = nf_accept; bytes = [] }
      else record {
        packet_id = d.packet_id;
        verdict = if lets_pass d.verdict then nf_accept else nf_drop;
        bytes = if replaces d.verdict then take d.caplen d.left else [];
      })
    ∷ ipq_verdicts passive ds

module _ {F U G : Type 0} (filter : F → List ℕ → ℕ → ℕ) (callback : Analysis U G) where
  -- The application's state and the decisions on packets after each other, with the whole packets that
  -- it leaves.
  unfoldable pub ipq_decide : Option U → Option F → ℕ → G → List IpqArrival → G × List Decision
  ipq_decide user fcode snaplen app [] = (app, [])
  ipq_decide user fcode snaplen app (a ∷ rest) =
      let id = a.packet.packet_id in
      let pkt = a.packet.payload in
      let hdr = ipq_hdr a.moment snaplen a.packet in
      let bytes = take hdr.caplen pkt in
      let (app', v, left) = callback user app hdr bytes in
      let (last, ds) = ipq_decide user fcode snaplen app rest in
      let (last', ds') = ipq_decide user fcode snaplen app' rest in
      if held_back filter fcode bytes hdr.caplen
      then (last, record { packet_id = id; caplen = length pkt; verdict = none; left = pkt } ∷ ds)
      else (
        last',
        record {
          packet_id = id;
          caplen = length pkt;
          verdict = some v;
          left = take hdr.caplen left ++ drop hdr.caplen pkt;
        }
            ∷ ds',
      )

-- No call of `ipq_daq_breakloop` in between.
abbrev pub Unbroken : List IpqRound → Type 0
Unbroken [] = Unit
Unbroken (IpqRound.read_failed text ∷ rs) = Unbroken rs
Unbroken (IpqRound.nothing ∷ rs) = Unbroken rs
Unbroken (IpqRound.other_message text ∷ rs) = Unbroken rs
Unbroken (IpqRound.queued m p ∷ rs) = (m.breaks ≡ false) × Unbroken rs
