-- ===== src/Afpacket/Inject.antt =====
-- os-daq-modules/daq_afpacket.c: `afpacket_daq_inject` on an instance with a TX ring.
use libdaq.Prelude.{
  ℕ, zero, suc, ◌≤◌, ◌<◌, ℤ, CString, List, [], ◌∷◌, some, Bool, true, false, get_elem?, length,
  take, le→ltb, set, ◌≡◌, ◌≢◌, ◌⊎◌, inl, inr, refl, ap, ◌∙◌, arith, Bool-cases, length-set,
}
use libdaq.Common.{PktHdr, inc64, daq_success, daq_error}
use libdaq.Afpacket.Frames.{get_elem-lt, get_elem-set_same}
use libdaq.Afpacket.Peers.{
  Context, Instance, TxRing, TxFrame, egress_of, with_instance, sent, next_frame, put_frame,
  ring_inject, instance_inject, afpacket_daq_inject,
}

found_lt : (is : List Instance) (i : ℕ) (x : Instance) → get_elem? is i ≡ some x → i < length is
found_lt [] i x h = absurd (ground (arith, h))
found_lt (y ∷ is) zero x h = omega arith
found_lt (y ∷ is) (suc i) x h = omega (arith, found_lt is i x h)

-- Whether the kernel took the packet, and the count.
abbrev pub Answered : ℤ → Context → Context → Type 0
Answered code afpc afpc' =
    ((code ≡ daq_success) × (afpc'.stats.packets_injected ≡ inc64 afpc.stats.packets_injected))
    ⊎ ((code ≡ daq_error) × (afpc'.stats.packets_injected ≡ afpc.stats.packets_injected))

-- The frame behind another one in a circle of `n` frames.
abbrev pub Behind : ℕ → ℕ → ℕ → Type 0
Behind n i i' = ((suc i < n) × (i' ≡ suc i)) ⊎ ((suc i ≡ n) × (i' ≡ 0))

-- The packet stands in the frame that was at the cursor, the other frames are as before, and the
-- cursor has gone on to the frame behind it.
pub record HandedOver (ring ring' : TxRing) (bytes : List ℕ) (len : ℕ) : Type 0 where
  pub frame :
      get_elem? ring'.frames ring.cursor
      ≡ some (record { available = false; len = len; bytes = take len bytes })
  pub same_length : length ring'.frames ≡ length ring.frames
  pub others : (n : ℕ) → n ≢ ring.cursor → get_elem? ring'.frames n ≡ get_elem? ring.frames n
  pub same_room : ring'.room ≡ ring.room
  pub cursor_behind : Behind (length ring.frames) ring.cursor ring'.cursor

next_frame-Behind :
    (ring : TxRing)
    → ring.cursor < length ring.frames
    → Behind (length ring.frames) ring.cursor (next_frame ring)
next_frame-Behind ring h = ground (arith, h)

get_elem-set_other :
    (fs : List TxFrame) (i n : ℕ) (f : TxFrame) → n ≢ i → get_elem? (set fs i f) n ≡ get_elem? fs n
get_elem-set_other [] i n f h = refl
get_elem-set_other (g ∷ fs) zero zero f h = absurd (h refl)
get_elem-set_other (g ∷ fs) zero (suc n) f h = refl
get_elem-set_other (g ∷ fs) (suc i) zero f h = refl
get_elem-set_other (g ∷ fs) (suc i) (suc n) f h = get_elem-set_other fs i n f (λ e. h (ap suc e))

put_frame-HandedOver :
    (ring : TxRing) (bytes : List ℕ) (len : ℕ)
    → ring.cursor < length ring.frames
    → HandedOver ring (put_frame ring bytes len) bytes len
put_frame-HandedOver ring bytes len h = record {
  frame = get_elem-set_same ring.frames ring.cursor _ h;
  same_length = length-set ring.frames ring.cursor _;
  others = λ n other. get_elem-set_other ring.frames ring.cursor n _ other;
  same_room = refl;
  cursor_behind = next_frame-Behind ring h;
}

sent-Answered :
    (ok : Bool) (text : CString) (afpc : Context)
    → Answered (sent ok text afpc).0 afpc (sent ok text afpc).1
      × ((sent ok text afpc).1.instances ≡ afpc.instances)
unfolding sent
sent-Answered false text afpc = (inr (refl, refl), refl)
sent-Answered true text afpc = (inl (refl, refl), refl)

-- If the packet leaves by an instance with a TX ring whose cursor is one of its frames, and fits a
-- frame, then `afpacket_daq_inject` returns. If the frame at the cursor is not free it gives
-- DAQ_SUCCESS and changes nothing. Otherwise the packet is in that frame, the other frames are as
-- before, the cursor is at the frame behind it in the circle, and the packet is counted exactly if
-- the code is DAQ_SUCCESS.
pub afpacket_inject_lem :
    (ok : Bool) (text : CString) (afpc : Context) (hdr : PktHdr) (bytes : List ℕ) (len : ℕ)
    (reverse : ℤ) (i : ℕ) (instance : Instance) (ring : TxRing)
    → egress_of afpc.instances hdr.ingress_index reverse ≡ some i
    → get_elem? afpc.instances i ≡ some instance
    → instance.tx_ring ≡ some ring
    → ring.cursor < length ring.frames
    → len ≤ ring.room
    → (frame : TxFrame) × (get_elem? ring.frames ring.cursor ≡ some frame)
      × (code : ℤ) × (afpc' : Context) × (afpacket_daq_inject ok text afpc hdr bytes len reverse
          ≡ some (code, afpc'))
      × (((frame.available ≡ false) × (code ≡ daq_success) × (afpc' ≡ afpc))
          ⊎ ((frame.available ≡ true)
              × ((ring' : TxRing) × (get_elem? afpc'.instances i
                    ≡ some (record instance { tx_ring = some ring' }))
                  × HandedOver ring ring' bytes len)
              × Answered code afpc afpc'))
unfolding afpacket_daq_inject instance_inject ring_inject
afpacket_inject_lem ok text afpc hdr bytes len reverse i instance ring egress found has_ring inside
      fits =
    let (frame, at_cursor) = get_elem-lt ring.frames ring.cursor inside in
    elim (Bool-cases frame.available) [
      | inl free ↦
          let instance' : Instance = record instance {
            tx_ring = some (put_frame ring bytes len);
          } in
          let afpc1 = with_instance afpc i instance' in
          let (answered, same) = sent-Answered ok text afpc1 in
          (
            frame,
            at_cursor,
            (sent ok text afpc1).0,
            (sent ok text afpc1).1,
            rw
                (
                  afpacket_daq_inject,
                  egress,
                  found,
                  has_ring,
                  at_cursor,
                  free,
                  le→ltb ring.room len fits,
                )
                refl,
            inr (
              free,
              (
                put_frame ring bytes len,
                ap (λ is. get_elem? is i) same
                    ∙ get_elem-set_same afpc.instances i instance'
                        (found_lt afpc.instances i instance found),
                put_frame-HandedOver ring bytes len inside,
              ),
              answered,
            ),
          )
      | inr busy ↦ (
        frame,
        at_cursor,
        daq_success,
        afpc,
        rw (afpacket_daq_inject, egress, found, has_ring, at_cursor, busy) refl,
        inl (busy, refl, refl),
      )
    ]
