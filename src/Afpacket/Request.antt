-- ===== src/Afpacket/Request.antt =====
-- os-daq-modules/daq_afpacket.c: what `create_ring` asks the kernel for.
use libdaq.Prelude.{
  ℕ, zero, suc, ◌*◌, ◌^◌, ◌≤◌, ◌<◌, ℤ, Option, some, ◌≡◌, ◌⊎◌, inl, inr, refl, arith,
}
use native.Mathlib.Nat.{mul_comm, mul-le-mul_left, one-le-pow}
use libdaq.Common.{daq_success, daq_error}
use libdaq.Afpacket.Layout.{
  Kernel, TpacketReq, u32, frame_size_of, RingAnswer, RingRequest, ask, try_orders, create_ring,
}
use libdaq.Afpacket.Bounds.{Fits, calculate_layout_lem}

-- The kernel made the ring that is described.
pub record Made (kernel : TpacketReq → RingAnswer) (size : ℕ) (ring : RingRequest) : Type 0 where
  pub answer : kernel ring.layout ≡ RingAnswer.created
  pub fits : Fits size ring.layout
  pub whole : ring.size ≡ ring.layout.block_size * ring.layout.block_nr

pow_small : (n : ℕ) → n ≤ 3 → 2 ^ n ≤ 8
pow_small zero h = omega arith
pow_small (suc zero) h = omega arith
pow_small (suc (suc zero)) h = omega arith
pow_small (suc (suc (suc zero))) h = omega arith
pow_small (suc (suc (suc (suc n)))) h = omega (arith, h)

module _ (k : Kernel) (kernel : TpacketReq → RingAnswer) (size : ℕ) (snaplen : ℤ) (tp_hdrlen : ℕ)
    (small : size < 2 ^ 31) (some_frame : 0 < frame_size_of k tp_hdrlen snaplen)
    (frame_small : frame_size_of k tp_hdrlen snaplen ≤ 2 ^ 31) (some_page : 0 < k.page_size)
    (page_small : k.page_size < 2 ^ 28) where
  abbrev Good : ℤ → RingRequest → Type 0
  Good code ring = ((code ≡ daq_success) × Made kernel size ring) ⊎ (code ≡ daq_error)

  whole_lem :
      (l : TpacketReq) → Fits size l → u32 (l.block_size * l.block_nr) ≡ l.block_size * l.block_nr
  whole_lem l fits = omega (arith, small, fits.mapped, mul_comm l.block_size l.block_nr)

  ask_lem :
      (answer : RingAnswer) (layout : TpacketReq) (ring : RingRequest)
      (retry : Option (ℤ × RingRequest))
      → kernel layout ≡ answer
      → Fits size layout
      → ((code : ℤ) × (ring' : RingRequest) × (retry ≡ some (code, ring')) × Good code ring')
      → (code : ℤ) × (ring' : RingRequest) × (ask answer layout ring retry ≡ some (code, ring'))
        × Good code ring'
  unfolding ask
  ask_lem RingAnswer.created layout ring retry e fits again = (
    daq_success,
    record { layout = layout; size = u32 (layout.block_size * layout.block_nr) },
    refl,
    inl (refl, record { answer = e; fits = fits; whole = whole_lem layout fits }),
  )
  ask_lem RingAnswer.no_memory layout ring retry e fits again = again
  ask_lem RingAnswer.refused layout ring retry e fits again =
      (daq_error, record ring { layout = layout }, refl, inr refl)

  try_orders_lem :
      (orders : ℕ) (ring : RingRequest)
      → orders ≤ 4
      → (code : ℤ) × (ring' : RingRequest) × (try_orders k kernel size snaplen tp_hdrlen orders ring
          ≡ some (code, ring'))
        × Good code ring'
  unfolding try_orders
  try_orders_lem zero ring h = (daq_error, ring, refl, inr refl)
  try_orders_lem (suc order) ring h =
      let (layout, j, run, same, block, fits) =
        calculate_layout_lem k size snaplen ring.layout tp_hdrlen order (omega (arith, small))
          some_frame frame_small
          (omega (arith, some_page, mul-le-mul_left k.page_size (one-le-pow order 2 (omega arith))))
          (omega (
            arith,
            page_small,
            mul-le-mul_left k.page_size (pow_small order (omega (arith, h))),
          )) in
      let again = try_orders_lem order (record ring { layout = layout }) (omega (arith, h)) in
      rw run (ask_lem (kernel layout) layout ring _ refl fits again)

  -- If the buffer size is below 2^31, a page is below 2^28 and the frame size is positive and at
  -- most 2^31, `create_ring` ends. Either it fails, or the kernel made a ring whose blocks hold whole frames,
  -- within the size asked for, and the size stored is the number of bytes of all blocks.
  pub create_ring_lem :
      (ring : RingRequest)
      → (code : ℤ) × (ring' : RingRequest) × (create_ring k kernel size snaplen tp_hdrlen ring
          ≡ some (code, ring'))
        × (((code ≡ daq_success) × Made kernel size ring') ⊎ (code ≡ daq_error))
  unfolding create_ring
  create_ring_lem ring = try_orders_lem 4 ring (omega arith)
