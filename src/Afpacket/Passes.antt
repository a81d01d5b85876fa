-- ===== src/Afpacket/Passes.antt =====
-- os-daq-modules/daq_afpacket.c: the passes of `afpacket_daq_acquire` over sound rings.
use libdaq.Prelude.{
  ℕ, zero, suc, ◌+◌, ◌%◌, ◌^◌, ◌≤◌, ◌<◌, pos, List, get_elem?, Option, some, Bool, false, ltb,
  ltb→le, ◌≡◌, ◌⊎◌, refl, ◌∙◌, arith, Bool-cases, inl, inr,
}
use libdaq.Common.{daq_error}
use libdaq.Module.{Callback}
use libdaq.Afpacket.Peers.{RxFrame, Instance}
use libdaq.Afpacket.Vlan.{has_flag}
use libdaq.Afpacket.Analyse.{set_error, tp_status_user, Walk, Pass}
use libdaq.Afpacket.Acquire.{corrupted_text, visit_frame, visit_instance, visit}
use libdaq.Afpacket.Safety.{SoundFrame, found}
use libdaq.Afpacket.Handle.{Good, bind_some, handle_frame_lem, otherwise}

module _ {U : Type 0} (sfbpf_filter : ℕ → List ℕ → ℕ → ℕ → ℕ) (callback : Option (Callback U))
    (breaks : U → Bool) where
  module _ (limit : ℕ) (inline : Bool) (n base : ℕ) where
    -- What a pass comes to.
    abbrev pub GoodPass : ℕ → Pass U → Type 0
    GoodPass bound (Pass.ended code w) =
        ((code ≡ pos 0) ⊎ (code ≡ daq_error)) × Good limit inline n base bound w
    GoodPass bound (Pass.went w) = Good limit inline n base bound w

    pub Good-weaken :
        (b b' : ℕ) (w : Walk U)
        → b ≤ b'
        → Good limit inline n base b w
        → Good limit inline n base b' w
    Good-weaken b b' w h good = record {
      sound = good.sound;
      bounded = omega (arith, good.bounded, h);
      counted = good.counted;
    }

    visit_frame_lem :
        (w : Walk U) (i bound : ℕ) (x : Instance) (f : RxFrame)
        → Good limit inline n base bound w
        → i < n
        → get_elem? w.afpc.instances i ≡ some x
        → SoundFrame limit x.rx_ring.frame_size f
        → (p : Pass U) × (visit_frame sfbpf_filter callback breaks w i x f ≡ some p)
          × GoodPass (suc bound) p
    unfolding visit_frame
    visit_frame_lem w i bound x f good inside at sound =
        elim (Bool-cases (has_flag f.tp_status tp_status_user)) [
          | inr kept ↦ (
            Pass.went w,
            rw (visit_frame, kept) refl,
            Good-weaken bound (suc bound) w (omega arith) good,
          )
          | inl user ↦
              let (room, word, size, small) = sound user in
              elim (Bool-cases (ltb x.rx_ring.frame_size ((f.tp_mac + f.tp_snaplen) % 2 ^ 32))) [
                | inl bad ↦ (
                  Pass.ended daq_error (record w { afpc = set_error w.afpc corrupted_text }),
                  rw (visit_frame, user, bad) refl,
                  (
                    inr refl,
                    record {
                      sound = good.sound;
                      bounded = omega (arith, good.bounded);
                      counted = good.counted;
                    },
                  ),
                )
                | inr fits ↦
                    let inside' =
                      ltb→le x.rx_ring.frame_size ((f.tp_mac + f.tp_snaplen) % 2 ^ 32) fits in
                    let (w', run, good') =
                      handle_frame_lem sfbpf_filter callback breaks limit inline n base w i bound x
                        f good inside at room (omega (arith, inside', word, size)) small in
                    (Pass.went w', rw (visit_frame, user, fits, run) refl, good')
              ]
        ]

    visit_found :
        (w : Walk U) (i bound : ℕ) (x : Instance) (f : RxFrame)
        → Good limit inline n base bound w
        → i < n
        → w.afpc.break_loop ≡ false
        → get_elem? w.afpc.instances i ≡ some x
        → get_elem? x.rx_ring.frames x.rx_ring.cursor ≡ some f
        → (p : Pass U) × (visit_instance sfbpf_filter callback breaks w i ≡ some p)
          × GoodPass (suc bound) p
    unfolding visit_instance
    visit_found w i bound x f good inside whole at there =
        let (p, run, good') =
          visit_frame_lem w i bound x f good inside at
            ((good.sound.1 i x at).rx.1 x.rx_ring.cursor f there) in
        (
          p,
          otherwise w.afpc.break_loop _ _ whole
              ∙ (bind_some (get_elem? w.afpc.instances i) x _ at
                  ∙ (bind_some (get_elem? x.rx_ring.frames x.rx_ring.cursor) f _ there ∙ run)),
          good',
        )

    visit_instance_lem :
        (w : Walk U) (i bound : ℕ)
        → Good limit inline n base bound w
        → i < n
        → (p : Pass U) × (visit_instance sfbpf_filter callback breaks w i ≡ some p)
          × GoodPass (suc bound) p
    unfolding visit_instance
    visit_instance_lem w i bound good inside = elim (Bool-cases w.afpc.break_loop) [
      | inl broken ↦ (
        Pass.ended (pos 0) (record w { afpc = record w.afpc { break_loop = false } }),
        rw (visit_instance, broken) refl,
        (
          inl refl,
          record {
            sound = good.sound;
            bounded = omega (arith, good.bounded);
            counted = good.counted;
          },
        ),
      )
      | inr whole ↦
          let (x, at) = found w.afpc.instances i (omega (arith, good.sound.0, inside)) in
          let (f, there) = found x.rx_ring.frames x.rx_ring.cursor (good.sound.1 i x at).rx.0 in
          visit_found w i bound x f good inside whole at there
    ]

    after_visit :
        (left i bound : ℕ) (w : Walk U) (p : Pass U)
        → visit_instance sfbpf_filter callback breaks w i ≡ some p
        → GoodPass (suc bound) p
        → ((w' : Walk U)
            → Good limit inline n base (suc bound) w'
            → (p' : Pass U) × (visit sfbpf_filter callback breaks left (suc i) w' ≡ some p')
              × GoodPass (suc bound + left) p')
        → (p' : Pass U) × (visit sfbpf_filter callback breaks (suc left) i w ≡ some p')
          × GoodPass (suc bound + left) p'
    unfolding visit
    after_visit left i bound w (Pass.ended code w') run (is, good) later = (
      Pass.ended code w',
      rw (visit, run) refl,
      (is, Good-weaken (suc bound) (suc bound + left) w' (omega arith) good),
    )
    after_visit left i bound w (Pass.went w') run good later =
        let (p', run', good') = later w' good in (p', rw (visit, run) run', good')

    pub visit_lem :
        (left i bound : ℕ) (w : Walk U)
        → Good limit inline n base bound w
        → i + left ≡ n
        → (p : Pass U) × (visit sfbpf_filter callback breaks left i w ≡ some p)
          × GoodPass (bound + left) p
    unfolding visit
    visit_lem zero i bound w good e =
        (Pass.went w, refl, Good-weaken bound (bound + 0) w (omega arith) good)
    visit_lem (suc left) i bound w good e =
        let (p, run, good') = visit_instance_lem w i bound good (omega (arith, e)) in
        let swap : bound + suc left ≡ suc bound + left = omega arith in
        rw swap (
          after_visit left i bound w p run good'
            (λ w' h. visit_lem left (suc i) (suc bound) w' h (omega (arith, e))))
