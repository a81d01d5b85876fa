-- ===== src/Dump/Capture.antt =====
-- os-daq-modules/daq_dump.c: what the application and the files get when a delegate passes a
-- sequence of packets to `daq_dump_capture`.
use libdaq.Prelude.{
  ℕ, zero, suc, ◌+◌, ◌%◌, ◌^◌, ◌<◌, List, [], ◌∷◌, ◌++◌, map, length, get_or, set, Option, none,
  some, Bool, false, not, ◌||◌, ◌==◌, if◌then◌else◌, length-set, ◌≡◌, refl, arith, Bool-cases, inl,
  inr, sym, ap, ◌∙◌,
}
use mathlib.Core.List.{append_assoc, append-nil}
use libdaq.Common.{
  PktHdr, count_verdict, inc64, max_daq_verdict, verdict_pass, verdict_replace, verdict_whitelist,
  verdict_ignore,
}
use libdaq.Module.{Callback, in_place, in_place_twice}
use libdaq.Dump.State.{Pcap, Output, s_fwd, clamp_verdict}
use libdaq.Dump.{forward, record_verdict, daq_dump_capture}

abbrev pub Packet : Type 0
Packet = PktHdr × List ℕ

-- A callback on one packet after the other: the state it leaves, its verdicts, and the packets as they
-- are then in their buffers.
unfoldable pub run : {U : Type 0} → Callback U → U → List Packet → U × List ℕ × List Packet
run callback u [] = (u, [], [])
run callback u ((hdr, pkt) ∷ ps) =
    let (u', v, left) = callback u hdr pkt in
    let (u'', vs, qs) = run callback u' ps in (u'', v ∷ vs, (hdr, in_place pkt left) ∷ qs)

-- The verdicts after which a packet goes on.
abbrev pub goes_on : ℕ → Bool
goes_on v =
    v == verdict_pass || (v == verdict_replace || (v == verdict_whitelist || v == verdict_ignore))

-- The packets that go on, by the application's verdicts.
unfoldable pub passed : List Packet → List ℕ → List Packet
passed [] vs = []
passed (p ∷ ps) [] = []
passed (p ∷ ps) (v ∷ vs) = let rest = passed ps vs in if goes_on v then p ∷ rest else rest

s_fwd_lem : (v : ℕ) → (get_or s_fwd (clamp_verdict v) 0 == 0) ≡ not (goes_on v)
s_fwd_lem v = ground arith

-- How often a verdict was given.
unfoldable pub occurrences : ℕ → List ℕ → ℕ
occurrences w [] = 0
occurrences w (v ∷ vs) = let n = occurrences w vs in if v == w then suc n else n

pub clamp_verdict_bound : (v : ℕ) → clamp_verdict v < max_daq_verdict
clamp_verdict_bound v = ground arith

get_or-set-same : (xs : List ℕ) (i v : ℕ) → i < length xs → get_or (set xs i v) i 0 ≡ v
get_or-set-same [] i v h = omega (arith, h)
get_or-set-same (x ∷ xs) zero v h = refl
get_or-set-same (x ∷ xs) (suc i) v h = get_or-set-same xs i v (omega (arith, h))

get_or-set-other :
    (xs : List ℕ) (i j v : ℕ) → (i == j) ≡ false → get_or (set xs i v) j 0 ≡ get_or xs j 0
get_or-set-other [] i j v h = refl
get_or-set-other (x ∷ xs) zero zero v h = ground arith
get_or-set-other (x ∷ xs) zero (suc j) v h = refl
get_or-set-other (x ∷ xs) (suc i) zero v h = refl
get_or-set-other (x ∷ xs) (suc i) (suc j) v h = get_or-set-other xs i j v (ground arith)

-- Counting one verdict, then `n` more of `w`.
pub count_step :
    (vs : List ℕ) (v w n : ℕ)
    → v < length vs
    → (get_or (count_verdict vs v) w 0 + n) % 2 ^ 64
      ≡ (get_or vs w 0 + (if v == w then suc n else n)) % 2 ^ 64
count_step vs v w n h = elim (Bool-cases (v == w)) [
  | inl e ↦ ground (arith, get_or-set-same vs v ((get_or vs v 0 + 1) % 2 ^ 64) h)
  | inr e ↦ ground (arith, get_or-set-other vs v w ((get_or vs v 0 + 1) % 2 ^ 64) e)
]

module _ {D : Type 0} (written : D → List Packet) where
  -- The packets in the dump file, if it is open.
  abbrev pub log : Option D → List Packet
  log none = []
  log (some d) = written d

  abbrev pub extended : Option D → List Packet → List Packet
  extended none ps = []
  extended (some d) ps = written d ++ ps

  log_lem : (dump : Option D) → log dump ≡ extended dump []
  log_lem none = refl
  log_lem (some d) = sym (append-nil (written d))

module _ {P D U : Type 0} (pcap : Pcap P D) (callback : Callback U) where
  -- The application sees what it would see without the module, and its delegate the clamped verdicts
  -- and the packets as the application left them.
  pub capture-user :
      (ps : List Packet) (out : Output D) (u : U)
      → ((run (daq_dump_capture pcap callback) (out, u) ps).0.1 ≡ (run callback u ps).0)
        × ((run (daq_dump_capture pcap callback) (out, u) ps).1
            ≡ map clamp_verdict (run callback u ps).1)
        × ((run (daq_dump_capture pcap callback) (out, u) ps).2 ≡ (run callback u ps).2)
  unfolding run daq_dump_capture
  capture-user [] out u = (refl, refl, refl)
  capture-user ((hdr, pkt) ∷ ps) out u =
      let (u', v, left) = callback u hdr pkt in
      let pkt' = in_place pkt left in
      let out' = record_verdict pcap out hdr pkt' (clamp_verdict v) in
      let (same, mapped, packets) = capture-user ps out' u' in
      (
        same,
        ap (λ vs. clamp_verdict v ∷ vs) mapped,
        ap (λ bs. (hdr, bs) ∷ (run (daq_dump_capture pcap callback) (out', u') ps).2)
              (in_place_twice pkt left)
            ∙ ap (λ qs. (hdr, pkt') ∷ qs) packets,
      )

  -- A counter goes up by the number of times its verdict was given.
  pub capture-count :
      (ps : List Packet) (out : Output D) (u : U) (w : ℕ)
      → length out.stats.verdicts ≡ max_daq_verdict
      → get_or (run (daq_dump_capture pcap callback) (out, u) ps).0.0.stats.verdicts w 0 % 2 ^ 64
        ≡ (get_or out.stats.verdicts w 0 + occurrences w (map clamp_verdict (run callback u ps).1))
          % 2 ^ 64
  unfolding run daq_dump_capture record_verdict occurrences
  capture-count [] out u w h = omega arith
  capture-count ((hdr, pkt) ∷ ps) out u w h =
      let (u', v, left) = callback u hdr pkt in
      let verdict = clamp_verdict v in
      let out' = record_verdict pcap out hdr (in_place pkt left) verdict in
      let vs = map clamp_verdict (run callback u' ps).1 in
      capture-count ps out' u' w
        (length-set out.stats.verdicts verdict (inc64 (get_or out.stats.verdicts verdict 0)) ∙ h)
      ∙ count_step out.stats.verdicts verdict w (occurrences w vs)
          (ground (arith, h, clamp_verdict_bound v))

  module _ (written : D → List Packet)
      (appends : (d : D) (hdr : PktHdr) (pkt : List ℕ)
        → written (pcap.dump d hdr pkt) ≡ written d ++ ((hdr, pkt) ∷ [])) where
    forward_lem :
        (dump : Option D) (hdr : PktHdr) (pkt : List ℕ) (v : ℕ) (ps : List Packet)
        → extended written (forward pcap dump hdr pkt (clamp_verdict v)) ps
          ≡ extended written dump (if goes_on v then (hdr, pkt) ∷ ps else ps)
    unfolding forward
    forward_lem none hdr pkt v ps = refl
    forward_lem (some d) hdr pkt v ps = elim (Bool-cases (goes_on v)) [
      | inr e ↦ rw (s_fwd_lem v, e) refl
      | inl e ↦
          rw (s_fwd_lem v, e)
            (ap (λ l. l ++ ps) (appends d hdr pkt) ∙ append_assoc (written d) ((hdr, pkt) ∷ []) ps)
    ]

    -- The dump file has what passed, in order, behind what it had.
    pub capture-log :
        (ps : List Packet) (out : Output D) (u : U)
        → log written (run (daq_dump_capture pcap callback) (out, u) ps).0.0.dump
          ≡ extended written out.dump (passed (run callback u ps).2 (run callback u ps).1)
    unfolding run daq_dump_capture record_verdict passed
    capture-log [] out u = log_lem written out.dump
    capture-log ((hdr, pkt) ∷ ps) out u =
        let (u', v, left) = callback u hdr pkt in
        let pkt' = in_place pkt left in
        let (u'', vs, qs) = run callback u' ps in
        capture-log ps (record_verdict pcap out hdr pkt' (clamp_verdict v)) u'
        ∙ forward_lem out.dump hdr pkt' v (passed qs vs)

    -- With a counter for each verdict: while a delegate passes any packets to `daq_dump_capture`, the application gives the verdicts that
    -- it gives without the module, and may write over the packets; the delegate gets its verdicts with
    -- those out of range as a block, and the packets as the application left them; the dump file, if
    -- it is open, has the packets with the verdicts PASS, REPLACE, WHITELIST and IGNORE as the application
    -- left them, in order, behind what it had; and each counter goes up by the number of its verdicts,
    -- modulo 2^64. `appends` says that pcap_dump adds the packet to its file.
    pub capture_lem :
        (ps : List Packet) (out : Output D) (u : U) (w : ℕ)
        → length out.stats.verdicts ≡ max_daq_verdict
        → let ((out', u'), vs, qs) = run (daq_dump_capture pcap callback) (out, u) ps in
          let (last, given, left) = run callback u ps in
          (u' ≡ last)
          × (vs ≡ map clamp_verdict given)
          × (qs ≡ left)
          × (log written out'.dump ≡ extended written out.dump (passed left given))
          × (get_or out'.stats.verdicts w 0 % 2 ^ 64
              ≡ (get_or out.stats.verdicts w 0 + occurrences w (map clamp_verdict given)) % 2 ^ 64)
    capture_lem ps out u w h =
        let (same, mapped, packets) = capture-user ps out u in
        (same, mapped, packets, capture-log ps out u, capture-count ps out u w h)
