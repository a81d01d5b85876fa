-- ===== src/Afpacket/Safety.antt =====
-- os-daq-modules/daq_afpacket.c: what keeps `afpacket_daq_acquire` inside its rings.
use libdaq.Prelude.{
  ℕ, zero, suc, ◌+◌, ◌^◌, ◌≤◌, ◌<◌, ℤ, negsuc, List, [], ◌∷◌, length, length-set, get_elem?, set,
  Option, none, some, Bool, true, ◌==◌, le→ltb, if◌then◌else◌, ◌≡◌, ◌⊎◌, refl, sym, ap, ◌∙◌, arith,
  Bool-cases, inl, inr,
}
use libdaq.Afpacket.Peers.{RxFrame, RxRing, TxRing, Instance, Context, put_frame}
use libdaq.Afpacket.Vlan.{has_flag, has_tag, insert_tag, tagged, untagged, Packet, payload, rebuild}
use libdaq.Afpacket.Analyse.{tp_status_user, forward_packet, released, release, egress_index_of}

pub found : {A : Type 0} (xs : List A) (i : ℕ) → i < length xs → (x : A) × (get_elem? xs i ≡ some x)
found [] i h = absurd (omega (arith, h))
found (x ∷ xs) zero h = (x, refl)
found (x ∷ xs) (suc i) h = found xs i (omega (arith, h))

next_inside : (c n m : ℕ) → c < n → m ≡ n → (if suc c == n then 0 else suc c) < m
next_inside c n m h e = ground arith

abbrev pub value_or : {A : Type 0} → A → Option A → A
value_or a none = a
value_or a (some b) = b

-- What is found after a write is what was written, or was there before.
found_after :
    {A : Type 0} (xs : List A) (i j : ℕ) (x y : A)
    → get_elem? (set xs i y) j ≡ some x
    → (y ≡ x) ⊎ (get_elem? xs j ≡ some x)
found_after [] i j x y e = inr e
found_after (z ∷ xs) zero zero x y e = inl (ap (value_or y) e)
found_after (z ∷ xs) zero (suc j) x y e = inr e
found_after (z ∷ xs) (suc i) zero x y e = inr e
found_after (z ∷ xs) (suc i) (suc j) x y e = found_after xs i j x y e

-- A frame that the kernel has handed over: room for a tag in front of the packet, and a packet of
-- at most `limit` bytes with a tag.
abbrev pub SoundFrame : ℕ → ℕ → RxFrame → Type 0
SoundFrame limit size f =
    has_flag f.tp_status tp_status_user ≡ true
    → (4 ≤ f.tp_mac)
      × (f.tp_mac + f.tp_snaplen < 2 ^ 32)
      × (size ≤ length f.raw)
      × (f.tp_snaplen + 4 ≤ limit)

abbrev pub SoundRing : ℕ → RxRing → Type 0
SoundRing limit ring =
    (ring.cursor < length ring.frames)
    × ((i : ℕ) (f : RxFrame)
        → get_elem? ring.frames i ≡ some f
        → SoundFrame limit ring.frame_size f)

abbrev pub SoundTx : ℕ → Option TxRing → Type 0
SoundTx limit none = ⊥
SoundTx limit (some ring) = (ring.cursor < length ring.frames) × (limit ≤ ring.room)

-- An instance among `n`: in inline mode it has a TX ring and its peer, if any, is there; else it has no
-- peer.
pub record Sound (limit : ℕ) (inline : Bool) (n : ℕ) (x : Instance) : Type 0 where
  pub rx : SoundRing limit x.rx_ring
  pub tx : inline ≡ true → SoundTx limit x.tx_ring
  pub peer : (x.peer ≡ none) ⊎ ((inline ≡ true) × (j : ℕ) × (x.peer ≡ some j) × (j < n))

abbrev pub SoundAll : ℕ → Bool → ℕ → List Instance → Type 0
SoundAll limit inline n is =
    (length is ≡ n) × ((i : ℕ) (x : Instance) → get_elem? is i ≡ some x → Sound limit inline n x)

module _ (limit : ℕ) (inline : Bool) (n : ℕ) where
  set-SoundAll :
      (is : List Instance) (i : ℕ) (y : Instance)
      → SoundAll limit inline n is
      → Sound limit inline n y
      → SoundAll limit inline n (set is i y)
  set-SoundAll is i y (sized, all) sound = (
    length-set is i y ∙ sized,
    λ j x e. elim (found_after is i j x y e) [
      | inl same ↦ rw (sym same) sound
      | inr before ↦ all j x before
    ],
  )

  -- A frame that goes back to the kernel.
  released-SoundRing :
      (ring : RxRing) (f : RxFrame) (p : Packet)
      → SoundRing limit ring
      → SoundRing limit (released ring f p)
  released-SoundRing ring f p (inside, frames) = (
    next_inside ring.cursor _ _ inside (length-set ring.frames ring.cursor _),
    λ j g e. elim (found_after ring.frames ring.cursor j g _ e) [
      | inl same ↦ rw (sym same) (λ user. absurd (ground (arith, user)))
      | inr before ↦ frames j g before
    ],
  )

  pub release-SoundAll :
      (afpc : Context) (i : ℕ) (f : RxFrame) (p : Packet)
      → SoundAll limit inline n afpc.instances
      → i < n
      → (is : List Instance) × (release afpc i f p ≡ some (record afpc { instances = is }))
        × SoundAll limit inline n is
  unfolding release
  release-SoundAll afpc i f p (sized, all) inside =
      let (x, e) = found afpc.instances i (omega (arith, sized, inside)) in
      let sound = all i x e in
      let y = record x { rx_ring = released x.rx_ring f p } in
      (
        set afpc.instances i y,
        rw e refl,
        set-SoundAll afpc.instances i y (sized, all)
            (record {
              rx = released-SoundRing x.rx_ring f p sound.rx;
              tx = sound.tx;
              peer = sound.peer;
            }),
      )

  -- A packet that passes.
  put-SoundAll :
      (afpc : Context) (j : ℕ) (y : Instance) (tx : Option TxRing) (p : Packet)
      → SoundAll limit inline n afpc.instances
      → get_elem? afpc.instances j ≡ some y
      → y.tx_ring ≡ tx
      → inline ≡ true
      → SoundTx limit tx
      → p.caplen ≤ limit
      → (is : List Instance) × (forward_packet afpc (some j) p
          ≡ some (record afpc { instances = is }))
        × SoundAll limit inline n is
  unfolding forward_packet
  put-SoundAll afpc j y none p all e has is' sound small = absurd sound
  put-SoundAll afpc j y (some ring) p all e has is' (inside, room) small =
      let (frame, e') = found ring.frames ring.cursor inside in
      let y' = record y { tx_ring = some (put_frame ring (payload p) p.caplen) } in
      elim (Bool-cases frame.available) [
        | inr busy ↦ (afpc.instances, rw (e, has, e', busy) refl, all)
        | inl free ↦ (
          set afpc.instances j y',
          rw (e, has, e', free, le→ltb ring.room p.caplen (omega (arith, room, small))) refl,
          set-SoundAll afpc.instances j y' all (record {
            rx = (all.1 j y e).rx;
            tx = λ h.
                (next_inside ring.cursor _ _ inside (length-set ring.frames ring.cursor _), room);
            peer = (all.1 j y e).peer;
          }),
        )
      ]

  pub forward-SoundAll :
      (afpc : Context) (peer : Option ℕ) (p : Packet)
      → SoundAll limit inline n afpc.instances
      → (peer ≡ none) ⊎ ((inline ≡ true) × (j : ℕ) × (peer ≡ some j) × (j < n))
      → p.caplen ≤ limit
      → (is : List Instance) × (forward_packet afpc peer p ≡ some (record afpc { instances = is }))
        × SoundAll limit inline n is
  unfolding forward_packet
  forward-SoundAll afpc peer p all (inl alone) small = (afpc.instances, rw alone refl, all)
  forward-SoundAll afpc peer p all (inr (is', j, e, inside)) small =
      let (y, e') = found afpc.instances j (omega (arith, all.0, inside)) in
      let (is, run, all') =
        put-SoundAll afpc j y y.tx_ring p all e' refl is' ((all.1 j y e').tx is') small in
      (is, rw e run, all')

  pub egress_lem :
      (is : List Instance) (peer : Option ℕ)
      → length is ≡ n
      → (peer ≡ none) ⊎ ((inline ≡ true) × (j : ℕ) × (peer ≡ some j) × (j < n))
      → (index : ℤ) × (egress_index_of is peer ≡ some index)
  unfolding egress_index_of
  egress_lem is peer sized (inl alone) = (negsuc 0, rw alone refl)
  egress_lem is peer sized (inr (is', j, e, inside)) =
      let (y, e') = found is j (omega (arith, sized, inside)) in (y.index, rw (e, e') refl)

-- A frame whose packet is inside can be rebuilt, in at most four bytes more.
pub rebuild_bound :
    (f : RxFrame)
    → 4 ≤ f.tp_mac
    → (p : Packet) × (rebuild f ≡ some p) × (p.caplen ≤ f.tp_snaplen + 4)
unfolding rebuild insert_tag tagged
rebuild_bound f room = elim (Bool-cases (has_tag f)) [
  | inr e ↦ (untagged f, rw e refl, omega arith)
  | inl e ↦ (tagged f, rw (e, le→ltb f.tp_mac 4 room) refl, omega arith)
]
