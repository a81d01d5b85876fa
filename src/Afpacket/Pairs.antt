-- ===== src/Afpacket/Pairs.antt =====
-- os-daq-modules/daq_afpacket.c: the loop of `afpacket_daq_initialize` over the device string.
use libdaq.Prelude.{
  ℕ, zero, suc, ◌%◌, ◌≤◌, eqb_ℤ, CString, List, [], ◌∷◌, length, length-map, Option, none, some,
  Bool, true, false, ◌==◌, ◌&&◌, not, leb, ltb, if◌then◌else◌, ◌≡◌, refl, ap, ◌∙◌, arith,
  Bool-cases, inl, inr,
}
use libdaq.Common.{daq_success}
use libdaq.Afpacket.Peers.{Instance, Context, set_peer, link, create_bridge}
use libdaq.Afpacket.Devices.{
  Creation, Created, create_instance, Opening, Opened, moved, put_in_front, bridge_pair,
  add_instance, open_device, before_colon, from_colon, open_devices,
}
use libdaq.Afpacket.Handle.{otherwise}

length-set_peer : (is : List Instance) (i peer : ℕ) → length (set_peer is i peer) ≡ length is
unfolding set_peer
length-set_peer [] i peer = refl
length-set_peer (x ∷ is) zero peer = refl
length-set_peer (x ∷ is) (suc i) peer = ap suc (length-set_peer is i peer)

length-link :
    (afpc : Context) (peer1 peer2 : Option ℕ)
    → length (link afpc peer1 peer2).1.instances ≡ length afpc.instances
unfolding link
length-link afpc none peer2 = refl
length-link afpc (some i) none = refl
length-link afpc (some i) (some j) =
    length-set_peer (set_peer afpc.instances i j) j i ∙ length-set_peer afpc.instances i j

length-create_bridge :
    (afpc : Context) (name1 name2 : CString)
    → length (create_bridge afpc name1 name2).1.instances ≡ length afpc.instances
unfolding create_bridge
length-create_bridge afpc name1 name2 = length-link afpc _ _

-- The interfaces opened so far: counted, few enough, and in pairs but for one when they are bridged.
pub record Paired (passive : Bool) (o : Opening) : Type 0 where
  pub sized : length o.afpc.instances ≡ o.intf_count
  pub bounded : o.intf_count ≤ 31
  pub pairs : passive ≡ false → (o.num_intfs ≤ 1) × (o.intf_count % 2 ≡ o.num_intfs)

abbrev pub OpenResult : Bool → Opened → Type 0
OpenResult passive (Opened.opened o) = Paired passive o
OpenResult passive (Opened.refused text) = Unit
OpenResult passive Opened.faulted = ⊥

bridge_pair-OpenResult :
    (passive : Bool) (o : Opening) (is : List Instance)
    → 2 ≤ length is
    → length o.afpc.instances ≡ o.intf_count
    → o.intf_count ≤ 31
    → o.intf_count % 2 ≡ 0
    → OpenResult passive (bridge_pair o is)
unfolding bridge_pair
bridge_pair-OpenResult passive o [] two sized bounded even = absurd (omega (arith, two))
bridge_pair-OpenResult passive o (y ∷ []) two sized bounded even = absurd (omega (arith, two))
bridge_pair-OpenResult passive o (y ∷ x ∷ is) two sized bounded even =
    elim (Bool-cases (eqb_ℤ (create_bridge o.afpc x.name y.name).0 daq_success)) [
      | inl e ↦ rw e (record {
        sized = length-create_bridge o.afpc x.name y.name ∙ sized;
        bounded = bounded;
        pairs = λ inline. (omega arith, even);
      })
      | inr e ↦ rw e tt
    ]

second : (b : Bool) (n : ℕ) → (not b && suc n == 2) ≡ true → (b ≡ false) × (n ≡ 1)
second true n e = absurd (ground (arith, e))
second false n e = (refl, ground (arith, e))

first : (b : Bool) (n : ℕ) → (not b && suc n == 2) ≡ false → b ≡ false → n ≤ 1 → n ≡ 0
first true n e inline few = absurd (ground (arith, inline))
first false n e inline few = ground (arith, e, few)

add_instance-OpenResult :
    (passive : Bool) (o : Opening) (x : Instance)
    → Paired passive o
    → o.intf_count ≤ 30
    → OpenResult passive (add_instance passive (record o { intf_count = suc o.intf_count }) x)
unfolding add_instance put_in_front
add_instance-OpenResult passive o x good few =
    let longer : length (put_in_front x o.afpc.instances) ≡ suc o.intf_count =
      ap suc (length-map o.afpc.instances moved ∙ good.sized) in
    let o' : Opening = record {
      afpc = record o.afpc { instances = put_in_front x o.afpc.instances };
      intf_count = suc o.intf_count;
      num_intfs = suc o.num_intfs;
    } in
    elim (Bool-cases (not passive && suc o.num_intfs == 2)) [
      | inl e ↦
          let (inline, one) = second passive o.num_intfs e in
          let odd = (good.pairs inline).1 in
          rw e (
            bridge_pair-OpenResult passive o' (put_in_front x o.afpc.instances)
              (omega (arith, longer, odd, one)) longer (omega (arith, few))
              (omega (arith, odd, one)))
      | inr e ↦ rw e (record {
        sized = longer;
        bounded = omega (arith, few);
        pairs = λ inline.
            let (few', odd) = good.pairs inline in
            let none_yet = first passive o.num_intfs e inline few' in
            (omega (arith, none_yet), omega (arith, none_yet, odd));
      })
    ]

created-OpenResult :
    (passive : Bool) (o : Opening) (answer : Created)
    → Paired passive o
    → o.intf_count ≤ 30
    → OpenResult passive (elim answer [
      | Created.not_created text ↦ Opened.refused text
      | Created.created instance ↦
          add_instance passive (record o { intf_count = suc o.intf_count }) instance
    ])
created-OpenResult passive o (Created.not_created text) good few = tt
created-OpenResult passive o (Created.created x) good few =
    add_instance-OpenResult passive o x good few

open_device-OpenResult :
    (passive : Bool) (kernel : CString → Creation) (name : CString) (o : Opening)
    → Paired passive o
    → OpenResult passive (open_device passive kernel name o)
unfolding open_device
open_device-OpenResult passive kernel name o good = elim (Bool-cases (leb 32 (suc o.intf_count))) [
  | inl e ↦ rw e tt
  | inr e ↦
      rw e
        (created-OpenResult passive o (create_instance (kernel name) name) good (ground (arith, e)))
]

from_colon_bound : (s : CString) → length (from_colon s) ≤ length s
unfolding from_colon
from_colon_bound [] = omega arith
from_colon_bound (c ∷ s) = elim (Bool-cases (c == b':')) [
  | inl e ↦ rw e (omega arith)
  | inr e ↦ rw e (omega (arith, from_colon_bound s))
]

-- Behind a name that is not empty there is less.
from_colon_less :
    (c : ℕ) (s : CString)
    → (length (before_colon (c ∷ s)) == 0) ≡ false
    → length (from_colon (c ∷ s)) ≤ length s
unfolding from_colon before_colon
from_colon_less c s named = elim (Bool-cases (c == b':')) [
  | inl e ↦ absurd (ground (arith, rw e at named))
  | inr e ↦ rw e (from_colon_bound s)
]

module _ (passive : Bool) (kernel : CString → Creation) where
  abbrev pub Opens : Option Opened → Type 0
  Opens result = (r : Opened) × (result ≡ some r) × OpenResult passive r

  -- What follows an interface, if the loop goes on as it should.
  after_device :
      (r : Opened) (rest : Opening → Option Opened)
      → OpenResult passive r
      → ((o : Opening) → Paired passive o → Opens (rest o))
      → Opens (elim r [
        | Opened.refused text ↦ some (Opened.refused text)
        | Opened.faulted ↦ some Opened.faulted
        | Opened.opened o' ↦
            if not passive && ltb 2 o'.num_intfs then some (Opened.opened o') else rest o'
      ])
  after_device (Opened.refused text) rest good later = (Opened.refused text, refl, tt)
  after_device Opened.faulted rest good later = absurd good
  after_device (Opened.opened o) rest good later =
      elim (Bool-cases (not passive && ltb 2 o.num_intfs)) [
        | inl e ↦ rw e (Opened.opened o, refl, good)
        | inr e ↦ rw e (later o good)
      ]

  pub open_devices_lem :
      (fuel : ℕ) (dev : CString) (o : Opening)
      → length dev ≤ fuel
      → Paired passive o
      → Opens (open_devices passive kernel fuel dev o)
  unfolding open_devices
  open_devices_lem fuel [] o enough good = (Opened.opened o, refl, good)
  open_devices_lem zero (c ∷ s) o enough good = absurd (omega (arith, enough))
  open_devices_lem (suc fuel) (c ∷ s) o enough good =
      elim (Bool-cases (leb 16 (length (before_colon (c ∷ s))))) [
        | inl long ↦ rw long (Opened.refused _, refl, tt)
        | inr short ↦ elim (Bool-cases (length (before_colon (c ∷ s)) == 0)) [
          | inl empty ↦
              rw (open_devices, short, empty)
                (open_devices_lem fuel s o (omega (arith, enough)) good)
          | inr named ↦
              let (r, run, good') =
                after_device (open_device passive kernel (before_colon (c ∷ s)) o)
                  (open_devices passive kernel fuel (from_colon (c ∷ s)))
                  (open_device-OpenResult passive kernel (before_colon (c ∷ s)) o good)
                  (λ o' h.
                    open_devices_lem fuel (from_colon (c ∷ s)) o'
                      (omega (arith, from_colon_less c s named, enough)) h) in
              (
                r,
                otherwise (leb 16 (length (before_colon (c ∷ s)))) _ _ short
                    ∙ (otherwise (length (before_colon (c ∷ s)) == 0) _ _ named ∙ run),
                good',
              )
        ]
      ]
