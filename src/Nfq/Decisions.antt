-- ===== src/Nfq/Decisions.antt =====
-- os-daq-modules/daq_nfq.c: a description of what becomes of queued packets that knows neither the loop
-- nor the buffer of `nfq_daq_acquire`.
use libdaq.Prelude.{
  ◌&&◌, pos, ℤ, true, ℕ, List, [], ◌∷◌, length, take, Option, none, some, Bool, false, ◌==◌, ◌||◌,
  if◌then◌else◌, ◌≡◌,
}
use libdaq.Ipfw.Decisions.{lets_pass}
use libdaq.Counting.{clamp, count_seen}
use libdaq.Common.{Stats, daq_error}
use libdaq.Netfilter.Limits.{has_more, one_less}
use libdaq.Netfilter.{Analysis, NfVerdict, nf_accept, nf_drop}
use libdaq.Nfq.Init.{nfq_buf_size}
use libdaq.Nfq.Acquire.{Queued, Moment, Round, nfq_hdr, held_back}

-- What is decided of a packet: none if the filter keeps it from the application, else the verdict and the
-- bytes that the application leaves.
pub record Decision : Type 0 where
  pub packet_id : ℕ
  pub caplen : ℕ
  pub verdict : Option ℕ
  pub left : List ℕ

-- REPLACE.
abbrev pub replaces : Option ℕ → Bool
replaces none = false
replaces (some v) = v == 2

-- One verdict for the kernel on each packet, in order.
unfoldable pub kernel_verdicts : Bool → List Decision → List NfVerdict
kernel_verdicts passive [] = []
kernel_verdicts passive (d ∷ ds) =
    record {
      packet_id = d.packet_id;
      verdict = if passive || lets_pass d.verdict then nf_accept else nf_drop;
      bytes = take (if replaces d.verdict then d.caplen else 0) d.left;
    }
    ∷ kernel_verdicts passive ds

-- The verdicts as they are counted.
unfoldable pub verdicts_of : List Decision → List ℕ
verdicts_of [] = []
verdicts_of (d ∷ ds) =
    let rest = verdicts_of ds in elim d.verdict [ none ↦ rest | some v ↦ clamp v ∷ rest ]

-- A packet, and when it is handled.
pub record Arrival : Type 0 where
  pub moment : Moment
  pub queued : Queued

abbrev pub id_of : Option ℕ → ℕ
id_of none = 0
id_of (some id) = id

abbrev pub bytes_of : Option (List ℕ) → List ℕ
bytes_of none = []
bytes_of (some bytes) = bytes

module _ {F U G : Type 0} (filter : F → List ℕ → ℕ → ℕ) (callback : Analysis U G) where
  -- The application's state and the decisions on packets after each other.
  unfoldable pub decide : Option U → Option F → ℕ → G → List Arrival → G × List Decision
  decide user fcode snaplen app [] = (app, [])
  decide user fcode snaplen app (a ∷ rest) =
      let id = id_of a.queued.packet_id in
      let pkt = bytes_of a.queued.payload in
      let hdr = nfq_hdr a.moment snaplen a.queued (length pkt) in
      let bytes = take hdr.caplen pkt in
      let (app', v, left) = callback user app hdr bytes in
      let (last, ds) = decide user fcode snaplen app rest in
      let (last', ds') = decide user fcode snaplen app' rest in
      if held_back filter fcode bytes hdr.caplen
      then (last, record { packet_id = id; caplen = hdr.caplen; verdict = none; left = bytes } ∷ ds)
      else (
        last',
        record { packet_id = id; caplen = hdr.caplen; verdict = some v; left = left } ∷ ds',
      )

-- A packet with a number and at least one byte.
abbrev pub has_number : Option ℕ → Bool
has_number none = false
has_number (some id) = true

abbrev pub has_bytes : Option (List ℕ) → Bool
has_bytes none = false
has_bytes (some []) = false
has_bytes (some (b ∷ bytes)) = true

abbrev pub whole : Queued → Bool
whole q = has_number q.packet_id && has_bytes q.payload

-- A datagram that is no use is counted all the same.
abbrev pub counted_if : Bool → Stats → Stats
counted_if false st = st
counted_if true st = count_seen st

-- No call of `nfq_daq_breakloop` in between.
abbrev pub Unbroken : List Round → Type 0
Unbroken [] = Unit
Unbroken (Round.select_interrupted ∷ rs) = Unbroken rs
Unbroken (Round.select_failed text ∷ rs) = Unbroken rs
Unbroken (Round.timed_out ∷ rs) = Unbroken rs
Unbroken (Round.arrived m bytes ∷ rs) = (m.breaks ≡ false) × Unbroken rs

-- `packet` is what libnetfilter_queue reads out of a datagram, and `started` whether the instance is.
module _ (packet : List ℕ → Queued) (started : Bool) where
  abbrev pub incoming : ℕ → List ℕ → Queued
  incoming b bytes = packet (take nfq_buf_size (b ∷ bytes))

  abbrev pub usable : ℕ → List ℕ → Bool
  usable b bytes = started && whole (incoming b bytes)

  -- The code, if there are rounds enough for it.
  unfoldable pub ending : Option ℕ → List Round → Option ℤ
  ending left [] = if has_more left then none else some (pos 0)
  ending left (Round.select_interrupted ∷ rs) = some (pos 0)
  ending left (Round.select_failed text ∷ rs) =
      if has_more left then some daq_error else some (pos 0)
  ending left (Round.timed_out ∷ rs) =
      let rest = ending left rs in if has_more left then rest else some (pos 0)
  ending left (Round.arrived m [] ∷ rs) =
      let rest = ending left rs in if has_more left then rest else some (pos 0)
  ending left (Round.arrived m (b ∷ bytes) ∷ rs) =
      let rest = ending (one_less left) rs in
      if has_more left then (if usable b bytes then rest else some daq_error) else some (pos 0)

  -- The packets that are answered.
  unfoldable pub taken : Option ℕ → List Round → List Arrival
  taken left [] = []
  taken left (Round.select_interrupted ∷ rs) = []
  taken left (Round.select_failed text ∷ rs) = []
  taken left (Round.timed_out ∷ rs) = let rest = taken left rs in if has_more left then rest else []
  taken left (Round.arrived m [] ∷ rs) =
      let rest = taken left rs in if has_more left then rest else []
  taken left (Round.arrived m (b ∷ bytes) ∷ rs) =
      let rest = taken (one_less left) rs in
      let first : Arrival = record { moment = m; queued = incoming b bytes } in
      if has_more left then (if usable b bytes then first ∷ rest else []) else []

  -- Whether a datagram that is no use ends it.
  unfoldable pub cut_off : Option ℕ → List Round → Bool
  cut_off left [] = false
  cut_off left (Round.select_interrupted ∷ rs) = false
  cut_off left (Round.select_failed text ∷ rs) = false
  cut_off left (Round.timed_out ∷ rs) =
      let rest = cut_off left rs in if has_more left then rest else false
  cut_off left (Round.arrived m [] ∷ rs) =
      let rest = cut_off left rs in if has_more left then rest else false
  cut_off left (Round.arrived m (b ∷ bytes) ∷ rs) =
      let rest = cut_off (one_less left) rs in
      if has_more left then (if usable b bytes then rest else true) else false
