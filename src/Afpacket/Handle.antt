-- ===== src/Afpacket/Handle.antt =====
-- os-daq-modules/daq_afpacket.c: one frame of a sound ring in `afpacket_daq_acquire`.
use libdaq.Prelude.{
  ℕ, suc, ◌+◌, ◌%◌, ◌^◌, ◌≤◌, ◌<◌, List, length, get_elem?, Option, some, Bool, true, false, ◌==◌,
  ◌||◌, not, le→ltb, if◌then◌else◌, ◌>>=◌, ◌≡◌, refl, arith, Bool-cases, Option-cases, inl, inr,
}
use libdaq.Common.{PktHdr, verdict_pass}
use libdaq.Module.{Callback}
use libdaq.Afpacket.Peers.{RxFrame, Instance, Context}
use libdaq.Afpacket.Vlan.{Packet, payload}
use libdaq.Afpacket.Analyse.{
  forward_packet, afpacket_header, Analysed, Walk, left_in, ask, filtered_out, analyse_packet,
  finish_packet, handle_frame,
}
use libdaq.Afpacket.Safety.{SoundAll, release-SoundAll, forward-SoundAll, egress_lem, rebuild_bound}

-- The rings are sound, at most `bound` packets were given to the application, and they are counted.
pub record Good {U : Type 0} (limit : ℕ) (inline : Bool) (n base bound : ℕ) (w : Walk U)
    : Type 0 where
  pub sound : SoundAll limit inline n w.afpc.instances
  pub bounded : w.count ≤ bound
  pub counted : w.afpc.stats.packets_received % 2 ^ 64 ≡ (base + w.count) % 2 ^ 64

abbrev pub one_if : Bool → ℕ
one_if true = 1
one_if false = 0

bound_lem : (g : Bool) (c bound : ℕ) → c ≤ bound → (if g then suc c else c) ≤ suc bound
bound_lem true c bound h = omega (arith, h)
bound_lem false c bound h = omega (arith, h)

count_lem :
    (g : Bool) (r r0 base c : ℕ)
    → r % 2 ^ 64 ≡ (r0 + one_if g) % 2 ^ 64
    → r0 % 2 ^ 64 ≡ (base + c) % 2 ^ 64
    → r % 2 ^ 64 ≡ (base + (if g then suc c else c)) % 2 ^ 64
count_lem true r r0 base c h h' = omega (arith, h, h')
count_lem false r r0 base c h h' = omega (arith, h, h')

pub otherwise : {A : Type 0} (b : Bool) (x y : A) → b ≡ false → (if b then x else y) ≡ y
otherwise b x y e = rw e refl

pub bind_some :
    {A B : Type 0} (o : Option A) (a : A) (f : A → Option B) → o ≡ some a → (o >>= f) ≡ f a
bind_some o a f e = rw e refl

module _ {U : Type 0} (sfbpf_filter : ℕ → List ℕ → ℕ → ℕ → ℕ) (callback : Option (Callback U))
    (breaks : U → Bool) where
  ask_lem :
      (afpc : Context) (user : U) (hdr : PktHdr) (bytes : List ℕ)
      → let afpc' = (ask sfbpf_filter callback breaks afpc user hdr bytes).0 in
        (afpc'.instances ≡ afpc.instances)
        × (afpc'.stats.packets_received ≡ afpc.stats.packets_received)
  unfolding ask
  ask_lem afpc user hdr bytes = elim (Option-cases callback) [
    | inl e ↦ rw e (refl, refl)
    | inr (cb, e) ↦ rw e (refl, refl)
  ]

  analyse_lem :
      (afpc : Context) (user : U) (hdr : PktHdr) (p : Packet)
      → let a = analyse_packet sfbpf_filter callback breaks afpc user hdr p in
        (a.afpc.instances ≡ afpc.instances)
        × (a.afpc.stats.packets_received % 2 ^ 64
            ≡ (afpc.stats.packets_received + one_if a.got) % 2 ^ 64)
  unfolding analyse_packet
  analyse_lem afpc user hdr p =
      let (same, same') = ask_lem afpc user hdr (payload p) in
      elim (Bool-cases (filtered_out sfbpf_filter callback breaks afpc.fcode p)) [
        | inl e ↦ rw e (refl, omega arith)
        | inr e ↦ rw e (same, omega (arith, same'))
      ]

  module _ (limit : ℕ) (inline : Bool) (n base : ℕ) where
    finish_lem :
        (w : Walk U) (i bound : ℕ) (x : Instance) (f : RxFrame) (p : Packet) (a : Analysed U)
        → Good limit inline n base bound w
        → i < n
        → get_elem? w.afpc.instances i ≡ some x
        → p.caplen ≤ limit
        → a.afpc.instances ≡ w.afpc.instances
        → a.afpc.stats.packets_received % 2 ^ 64
          ≡ (w.afpc.stats.packets_received + one_if a.got) % 2 ^ 64
        → (w' : Walk U) × (finish_packet sfbpf_filter callback breaks w i x f p a ≡ some w')
          × Good limit inline n base (suc bound) w'
    unfolding finish_packet
    finish_lem w i bound x f p a good inside at small same count =
        let all : SoundAll limit inline n a.afpc.instances = rw same good.sound in
        let (is, sent, all') : (is : List Instance) × ((if a.verdict == verdict_pass
                then forward_packet a.afpc x.peer (left_in p a)
                else some a.afpc)
              ≡ some (record a.afpc { instances = is }))
            × SoundAll limit inline n is =
          elim (Bool-cases (a.verdict == verdict_pass)) [
            | inl e ↦ rw e (
                forward-SoundAll limit inline n a.afpc x.peer (left_in p a) all
                  (good.sound.1 i x at).peer small)
            | inr e ↦ rw e (a.afpc.instances, refl, all)
          ] in
        let (is', done, all2) =
          release-SoundAll limit inline n (record a.afpc { instances = is }) i f (left_in p a) all'
            inside in
        (
          record {
            afpc = record a.afpc { instances = is' };
            user = a.user;
            got_one = w.got_one || a.got;
            ignored_one = w.ignored_one || not a.got;
            count = if a.got then suc w.count else w.count;
          },
          rw (sent, done) refl,
          record {
            sound = all2;
            bounded = bound_lem a.got w.count bound good.bounded;
            counted = count_lem a.got _ _ base w.count count good.counted;
          },
        )

    pub handle_frame_lem :
        (w : Walk U) (i bound : ℕ) (x : Instance) (f : RxFrame)
        → Good limit inline n base bound w
        → i < n
        → get_elem? w.afpc.instances i ≡ some x
        → 4 ≤ f.tp_mac
        → f.tp_mac + f.tp_snaplen ≤ length f.raw
        → f.tp_snaplen + 4 ≤ limit
        → (w' : Walk U) × (handle_frame sfbpf_filter callback breaks w i x f ≡ some w')
          × Good limit inline n base (suc bound) w'
    unfolding handle_frame
    handle_frame_lem w i bound x f good inside at room whole small =
        let (p, built, fits) = rebuild_bound f room in
        let (egress, e) =
          egress_lem limit inline n w.afpc.instances x.peer good.sound.0
            (good.sound.1 i x at).peer in
        let hdr = afpacket_header f p x.index egress in
        let (same, count) = analyse_lem w.afpc w.user hdr p in
        let (w', run, good') =
          finish_lem w i bound x f p
            (analyse_packet sfbpf_filter callback breaks w.afpc w.user hdr p) good inside at
            (omega (arith, fits, small)) same count in
        (w', rw (le→ltb (length f.raw) (f.tp_mac + f.tp_snaplen) whole, built, e) run, good')
