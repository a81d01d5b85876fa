-- ===== src/Afpacket/Peers.antt =====
-- os-daq-modules/daq_afpacket.c: the instances of a context, their bridges and injection. A pointer to
-- an instance is its place in the list. The result none is an access outside a frame or a ring.
use libdaq.Prelude.{
  ℕ, zero, suc, ℤ, pos, eqb_ℤ, CString, str_eq, List, [], ◌∷◌, Option, none, some, Bool, true,
  false, not, get_elem?, set, take, length, ltb, ◌==◌, if◌then◌else◌, ◌>>=◌,
}
use libdaq.Common.{Stats, PktHdr, inc64, daq_success, daq_error, daq_error_nodev}

-- A frame of the TX ring: whether it is free for the program, and the packet in it.
pub record TxFrame : Type 0 where
  pub available : Bool
  pub len : ℕ
  pub bytes : List ℕ

-- `tx_ring` with its cursor; `room` is the part of a frame behind the aligned header.
pub record TxRing : Type 0 where
  pub frames : List TxFrame
  pub cursor : ℕ
  pub room : ℕ

-- A frame of the RX ring: its `struct tpacket2_hdr`, and its bytes from the start of the frame on.
pub record RxFrame : Type 0 where
  pub tp_status : ℕ
  pub tp_len : ℕ
  pub tp_snaplen : ℕ
  pub tp_mac : ℕ
  pub tp_sec : ℕ
  pub tp_nsec : ℕ
  pub tp_vlan_tci : ℕ
  pub tp_vlan_tpid : ℕ
  pub raw : List ℕ

-- `rx_ring` with its cursor.
pub record RxRing : Type 0 where
  pub frames : List RxFrame
  pub cursor : ℕ
  pub frame_size : ℕ

-- AFPacketInstance; its `tp_version` is always TPACKET_V2.
pub record Instance : Type 0 where
  pub name : CString
  pub index : ℤ
  pub peer : Option ℕ
  pub rx_ring : RxRing
  pub tx_ring : Option TxRing

-- AFPacket_Context_t, less what only the start of an instance reads; a compiled filter is a number.
pub record Context : Type 0 where
  pub snaplen : ℤ
  pub filter : Option CString
  pub fcode : Option ℕ
  pub instances : List Instance
  pub break_loop : Bool
  pub stats : Stats
  pub state : ℕ
  pub errbuf : CString

-- The places that the loop of `create_bridge` finds: the last one of each name.
unfoldable pub find_peers :
    CString → CString → ℕ → List Instance → Option ℕ × Option ℕ → Option ℕ × Option ℕ
find_peers name1 name2 i [] found = found
find_peers name1 name2 i (instance ∷ is) (peer1, peer2) = find_peers name1 name2 (suc i) is (
    if str_eq instance.name name1
    then (some i, peer2)
    else if str_eq instance.name name2
    then (peer1, some i)
    else (peer1, peer2))

-- `instance->peer = peer`.
unfoldable pub set_peer : List Instance → ℕ → ℕ → List Instance
set_peer [] i peer = []
set_peer (instance ∷ is) zero peer = record instance { peer = some peer } ∷ is
set_peer (instance ∷ is) (suc i) peer = instance ∷ set_peer is i peer

unfoldable pub link : Context → Option ℕ → Option ℕ → ℤ × Context
link afpc none peer2 = (daq_error_nodev, afpc)
link afpc (some i) none = (daq_error_nodev, afpc)
link afpc (some i) (some j) =
    (daq_success, record afpc { instances = set_peer (set_peer afpc.instances i j) j i })

-- `create_bridge`.
unfoldable pub create_bridge : Context → CString → CString → ℤ × Context
unfolding find_peers link
create_bridge afpc name1 name2 =
    let (peer1, peer2) = find_peers name1 name2 0 afpc.instances (none, none) in
    link afpc peer1 peer2

-- `afpacket_daq_get_device_index`.
unfoldable pub device_index : List Instance → CString → ℤ
device_index [] device = daq_error_nodev
device_index (instance ∷ is) device =
    let rest = device_index is device in
    if str_eq device instance.name then instance.index else rest

-- The loop of `afpacket_daq_inject`: the place of the first instance with the index.
unfoldable pub ingress_of : List Instance → ℤ → ℕ → Option ℕ
ingress_of [] index i = none
ingress_of (instance ∷ is) index i =
    let rest = ingress_of is index (suc i) in if eqb_ℤ instance.index index then some i else rest

-- The instance that the packet leaves by; NULL for one without a peer.
unfoldable pub egress_of : List Instance → ℤ → ℤ → Option ℕ
unfolding ingress_of
egress_of is index reverse = do
  i ← ingress_of is index 0
  instance ← get_elem? is i
  if eqb_ℤ reverse (pos 0) then instance.peer else some i

abbrev pub with_instance : Context → ℕ → Instance → Context
with_instance afpc i instance = record afpc { instances = set afpc.instances i instance }

-- What follows send and sendto, with the text for a failure.
unfoldable pub sent : Bool → CString → Context → ℤ × Context
sent false text afpc = (daq_error, record afpc { errbuf = take 255 text })
sent true text afpc = (
  daq_success,
  record afpc {
    stats = record afpc.stats { packets_injected = inc64 afpc.stats.packets_injected };
  },
)

-- `entry->next` in the circle of frames.
abbrev pub next_frame : TxRing → ℕ
next_frame ring = if suc ring.cursor == length ring.frames then 0 else suc ring.cursor

-- The packet in the frame at the cursor.
abbrev pub put_frame : TxRing → List ℕ → ℕ → TxRing
put_frame ring bytes len = record ring {
  frames =
      set ring.frames ring.cursor (record { available = false; len = len; bytes = take len bytes });
  cursor = next_frame ring;
}

-- The branch with a TX ring: a frame that is not free is passed over.
unfoldable pub ring_inject :
    Bool → CString → Context → ℕ → Instance → TxRing → List ℕ → ℕ → Option (ℤ × Context)
unfolding sent
ring_inject ok text afpc i instance ring bytes len = do
  frame ← get_elem? ring.frames ring.cursor
  if not frame.available
      then some (daq_success, afpc)
      else if ltb ring.room len
      then none
      else some (
          sent ok text
            (with_instance afpc i (record instance { tx_ring = some (put_frame ring bytes len) })))

-- The branches on the TX ring of an instance.
unfoldable pub instance_inject :
    Bool → CString → Context → ℕ → Instance → List ℕ → ℕ → Option (ℤ × Context)
unfolding ring_inject
instance_inject ok text afpc i instance bytes len = elim instance.tx_ring [
  | none ↦ some (sent ok text afpc)
  | some ring ↦ ring_inject ok text afpc i instance ring bytes len
]

-- `afpacket_daq_inject`: `ok` is the answer of send or sendto.
unfoldable pub afpacket_daq_inject :
    Bool → CString → Context → PktHdr → List ℕ → ℕ → ℤ → Option (ℤ × Context)
unfolding egress_of instance_inject
afpacket_daq_inject ok text afpc hdr bytes len reverse =
    elim (egress_of afpc.instances hdr.ingress_index reverse) [
      | none ↦ some (daq_error, afpc)
      | some i ↦ (do
        instance ← get_elem? afpc.instances i
        instance_inject ok text afpc i instance bytes len)
    ]
