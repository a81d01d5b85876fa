-- ===== src/Afpacket/Devices.antt =====
-- os-daq-modules/daq_afpacket.c: `create_instance` and the part of `afpacket_daq_initialize` that opens
-- the interfaces. A pointer to an instance is its place in the list, which moves when one is put in front.
use libdaq.Prelude.{
  ℕ, zero, suc, ℤ, eqb_ℤ, CString, codes, List, [], ◌∷◌, ◌++◌, map, length, Option, none, some,
  Bool, false, ◌==◌, ◌&&◌, ◌||◌, not, leb, ltb, if◌then◌else◌,
}
use libdaq.Common.{daq_success}
use libdaq.Dump.Text.{dec}
use libdaq.Afpacket.Peers.{RxRing, Instance, Context, create_bridge}

-- AF_PACKET_MAX_INTERFACES, and IFNAMSIZ of <net/if.h>.
abbrev pub af_packet_max_interfaces : ℕ
af_packet_max_interfaces = 32

abbrev pub ifnamsiz : ℕ
ifnamsiz = 16

-- What the calls of `create_instance` answer for a device.
pub data Creation : Type 0 where
  no_memory : Creation
  no_name : Creation
  no_socket : CString → Creation
  no_index : Creation
  has_index : ℤ → Creation

abbrev pub empty_ring : RxRing
empty_ring = record { frames = []; cursor = 0; frame_size = 0 }

-- `create_instance`: the instance, or the text in `errbuf`.
pub data Created : Type 0 where
  created : Instance → Created
  not_created : CString → Created

unfoldable pub create_instance : Creation → CString → Created
create_instance Creation.no_memory device =
    Created.not_created (codes "create_instance: Could not allocate a new instance structure.")
create_instance Creation.no_name device =
    Created.not_created (codes "create_instance: Could not allocate a copy of the device name.")
create_instance (Creation.no_socket strerror) device =
    Created.not_created (codes "create_instance: Could not open the PF_PACKET socket: " ++ strerror)
create_instance Creation.no_index device =
    Created.not_created (codes "create_instance: Could not find index for device " ++ device)
create_instance (Creation.has_index index) device =
    Created.created
      (record { name = device; index = index; peer = none; rx_ring = empty_ring; tx_ring = none })

-- The context while its interfaces are opened.
pub record Opening : Type 0 where
  pub afpc : Context
  pub intf_count : ℕ
  pub num_intfs : ℕ

-- The end of a round or of the loop; `faulted` is an access through NULL.
pub data Opened : Type 0 where
  opened : Opening → Opened
  refused : CString → Opened
  faulted : Opened

abbrev pub init_error : CString → CString
init_error text = codes "afpacket_daq_initialize: " ++ text

-- `instance->next = afpc->instances; afpc->instances = instance;`
abbrev pub next_place : Option ℕ → Option ℕ
next_place none = none
next_place (some j) = some (suc j)

abbrev pub moved : Instance → Instance
moved x = record x { peer = next_place x.peer }

unfoldable pub put_in_front : Instance → List Instance → List Instance
put_in_front instance is = instance ∷ map moved is

-- The bridge between the last two instances.
unfoldable pub bridge_pair : Opening → List Instance → Opened
bridge_pair o [] = Opened.faulted
bridge_pair o (y ∷ []) = Opened.faulted
bridge_pair o (y ∷ x ∷ is) =
    let (code, afpc) = create_bridge o.afpc x.name y.name in
    if eqb_ℤ code daq_success
    then Opened.opened (record o { afpc = afpc; num_intfs = 0 })
    else Opened.refused (
        init_error (
          codes "Couldn't create the bridge between "
          ++ (x.name ++ (codes " and " ++ (y.name ++ codes "!")))))

-- One more interface.
unfoldable pub add_instance : Bool → Opening → Instance → Opened
unfolding put_in_front bridge_pair
add_instance passive o instance =
    let o' : Opening = record {
      afpc = record o.afpc { instances = put_in_front instance o.afpc.instances };
      intf_count = o.intf_count;
      num_intfs = suc o.num_intfs;
    } in
    if not passive && o'.num_intfs == 2 then bridge_pair o' o'.afpc.instances else Opened.opened o'

unfoldable pub open_device : Bool → (CString → Creation) → CString → Opening → Opened
unfolding create_instance add_instance
open_device passive kernel name o =
    if leb af_packet_max_interfaces (suc o.intf_count)
    then Opened.refused (
        init_error (
          codes "Using more than "
          ++ (dec af_packet_max_interfaces ++ codes " interfaces is not supported!")))
    else elim (create_instance (kernel name) name) [
      | Created.not_created text ↦ Opened.refused text
      | Created.created instance ↦
          add_instance passive (record o { intf_count = suc o.intf_count }) instance
    ]

-- `strcspn(dev, ":")`: what stands before the next colon, and the rest from it on.
unfoldable pub before_colon : CString → CString
before_colon [] = []
before_colon (c ∷ s) = let rest = before_colon s in if c == b':' then [] else c ∷ rest

unfoldable pub from_colon : CString → CString
from_colon [] = []
from_colon (c ∷ s) = let rest = from_colon s in if c == b':' then c ∷ s else rest

module _ (passive : Bool) (kernel : CString → Creation) where
  -- The loop over the device string, in a number of rounds; none is a loop that still runs.
  unfoldable pub open_devices : ℕ → CString → Opening → Option Opened
  unfolding before_colon from_colon open_device
  open_devices fuel [] o = some (Opened.opened o)
  open_devices zero (c ∷ s) o = none
  open_devices (suc fuel) (c ∷ s) o =
      let name = before_colon (c ∷ s) in
      let skipped = open_devices fuel s o in
      if leb ifnamsiz (length name)
      then some (
          Opened.refused
            (init_error (codes "Interface name too long! (" ++ (dec (length name) ++ codes ")"))))
      else if length name == 0
      then skipped
      else elim (open_device passive kernel name o) [
        | Opened.refused text ↦ some (Opened.refused text)
        | Opened.faulted ↦ some Opened.faulted
        | Opened.opened o' ↦
            let rest = open_devices fuel (from_colon (c ∷ s)) o' in
            if not passive && ltb 2 o'.num_intfs then some (Opened.opened o') else rest
      ]

-- The check of the string before the loop.
abbrev pub is_colon : CString → Bool
is_colon [] = false
is_colon (c ∷ s) = c == b':'

unfoldable pub ends_in_colon : CString → Bool
ends_in_colon [] = false
ends_in_colon (c ∷ []) = c == b':'
ends_in_colon (c ∷ d ∷ s) = ends_in_colon (d ∷ s)

unfoldable pub has_double_colon : CString → Bool
has_double_colon [] = false
has_double_colon (c ∷ s) = (c == b':' && is_colon s) || has_double_colon s

unfoldable pub bad_device : Bool → CString → Bool
unfolding ends_in_colon has_double_colon
bad_device passive dev = is_colon dev || (ends_in_colon dev || (passive && has_double_colon dev))
