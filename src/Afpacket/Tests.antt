-- ===== src/Afpacket/Tests.antt =====
-- A kernel with pages of 4096 bytes, and the theorems on its rings.
use libdaq.Prelude.{
  ℕ, ◌+◌, ◌*◌, ◌/◌, ◌%◌, ◌^◌, ◌≤◌, ◌<◌, ℤ, pos, CString, codes, str_eq, List, [], ◌∷◌, Option, none,
  some, true, false, ltb, get_elem?, if◌then◌else◌, ◌≡◌, ◌⊎◌, refl, arith,
}
use libdaq.Common.{daq_success, daq_error, no_stats, state_initialized, state_started}
use libdaq.Afpacket.Layout.{
  Kernel, TpacketReq, RingAnswer, RingRequest, frame_size_of, grow, fill_layout, calculate_layout,
  ask, try_orders, create_ring, u32,
}
use libdaq.Afpacket.Bounds.{Fits, calculate_layout_lem, layout_hangs}
use libdaq.Afpacket.Request.{Made, create_ring_lem}
use libdaq.Afpacket.Ring.{Entry, fill_frames, fill_blocks, close_ring, set_up_ring}
use libdaq.Afpacket.Circle.{per_block, in_circle, set_up_ring_lem}
use libdaq.Afpacket.Peers.{Instance, Context, find_peers, set_peer, link, create_bridge}
use libdaq.Afpacket.Peers.{
  TxFrame, TxRing, RxRing, egress_of, ingress_of, sent, ring_inject, instance_inject,
  afpacket_daq_inject,
}
use libdaq.Afpacket.Stats.{TpacketStats, update_hw_stats, afpacket_daq_stop, afpacket_daq_get_stats}
use libdaq.Afpacket.Counters.{seen, dropped, total, update_hw_lem, get_stats-stop}
use libdaq.Afpacket.Inject.{Answered, HandedOver, afpacket_inject_lem}
use libdaq.Samples.{sample_header}
use libdaq.Afpacket.Bridge.{Bridged, create_bridge_lem}

program : Unit {0}
unfolding frame_size_of grow fill_layout calculate_layout ask try_orders create_ring fill_frames
    fill_blocks close_ring set_up_ring find_peers set_peer link create_bridge str_eq egress_of
    ingress_of sent ring_inject instance_inject afpacket_daq_inject
program = tt

abbrev kernel : Kernel
kernel = record {
  align = λ n. (n + 15) / 16 * 16;
  sizeof_sockaddr_ll = 20;
  eth_hlen = 14;
  page_size = 4096;
}

abbrev no_layout : TpacketReq
no_layout = record { block_size = 0; block_nr = 0; frame_size = 0; frame_nr = 0 }

-- A megabyte in orders of three: frames of 1600 bytes, 20 to a block.
megabyte :
    calculate_layout kernel (2 ^ 20) (pos 1518) no_layout 32 3
    ≡ some (
      daq_success,
      record { block_size = 32768; block_nr = 32; frame_size = 1600; frame_nr = 640 },
    )
unfolding program
megabyte = refl

calculate_layout_lem_example :
    (l' : TpacketReq) × (j : ℕ) × (calculate_layout kernel (2 ^ 20) (pos 1518) no_layout 32 3
      ≡ some (daq_success, l'))
    × (l'.frame_size ≡ frame_size_of kernel 32 (pos 1518))
    × (l'.block_size ≡ 4096 * 2 ^ 3 * 2 ^ j)
    × Fits (2 ^ 20) l'
unfolding program
calculate_layout_lem_example =
    calculate_layout_lem kernel (2 ^ 20) (pos 1518) no_layout 32 3 (omega arith) (omega arith)
      (omega arith) (omega arith) (omega arith)

layout_hangs_example :
    grow 100 (u32 (4096 * 2 ^ 3)) (frame_size_of kernel 32 (pos 2_147_483_647)) ≡ none
unfolding program
layout_hangs_example =
    layout_hangs kernel (pos 2_147_483_647) 32 3 16 (omega arith) (omega arith) 100

-- A kernel that has no more than two pages in a row.
abbrev short_memory : TpacketReq → RingAnswer
short_memory l = if ltb 8192 l.block_size then RingAnswer.no_memory else RingAnswer.created

abbrev no_ring : RingRequest
no_ring = record { layout = no_layout; size = 0 }

create_ring_lem_example :
    (code : ℤ) × (ring' : RingRequest) × (create_ring kernel short_memory
        (2 ^ 20)
        (pos 1518)
        32
        no_ring
      ≡ some (code, ring'))
    × (((code ≡ daq_success) × Made short_memory (2 ^ 20) ring') ⊎ (code ≡ daq_error))
unfolding program
create_ring_lem_example =
    create_ring_lem kernel short_memory (2 ^ 20) (pos 1518) 32 (omega arith) (omega arith)
      (omega arith) (omega arith) (omega arith) no_ring

abbrev two_blocks : TpacketReq
two_blocks = record { block_size = 4096; block_nr = 2; frame_size = 1600; frame_nr = 4 }

set_up_ring_lem_example :
    (entries : List Entry) × (set_up_ring two_blocks true ≡ some (daq_success, entries))
    × ((b i : ℕ)
        → b < 2
        → i < per_block two_blocks
        → (get_elem? entries (b * per_block two_blocks + i) ≡ some (in_circle two_blocks b i))
          × (i * 1600 + 1600 ≤ 4096)
          × (b * 4096 + 4096 ≤ 2 * 4096))
set_up_ring_lem_example =
    set_up_ring_lem two_blocks (omega arith) (omega arith) (omega arith) (omega arith)

abbrev empty_ring : RxRing
empty_ring = record { frames = []; cursor = 0; frame_size = 0 }

abbrev interface : CString → ℤ → Instance
interface name index = record {
  name = name;
  index = index;
  peer = none;
  rx_ring = empty_ring;
  tx_ring = none;
}

abbrev context_of : List Instance → Context
context_of is = record {
  snaplen = pos 1518;
  instances = is;
  filter = none;
  fcode = none;
  break_loop = false;
  stats = no_stats;
  state = state_initialized;
  errbuf = [];
}

abbrev separate : Context
separate = context_of (interface (codes "eth1") (pos 3) ∷ interface (codes "eth0") (pos 2) ∷ [])

abbrev bridged : Context
bridged = context_of (
    record (interface (codes "eth1") (pos 3)) { peer = some 1 }
    ∷ record (interface (codes "eth0") (pos 2)) { peer = some 0 }
    ∷ [])

create_bridge_lem_example :
    (bridged ≡ record separate { instances = bridged.instances })
    × (i : ℕ) × (j : ℕ) × Bridged
        (codes "eth0")
        (codes "eth1")
        separate.instances
        bridged.instances
        i
        j
unfolding program
create_bridge_lem_example = create_bridge_lem separate bridged (codes "eth0") (codes "eth1") refl

-- A ring of two frames, the second of which is in use.
abbrev ring : TxRing
ring = record {
  frames =
      record { available = true; len = 0; bytes = [] }
      ∷ record { available = false; len = 1; bytes = 9 ∷ [] }
      ∷ [];
  cursor = 0;
  room = 1500;
}

abbrev sender : Instance
sender = record (interface (codes "eth0") (pos 1)) { tx_ring = some ring }

abbrev running : Context
running = record (context_of (sender ∷ [])) { state = state_started }

afpacket_inject_lem_example :
    (frame : TxFrame) × (get_elem? ring.frames 0 ≡ some frame)
    × (code : ℤ) × (afpc' : Context) × (afpacket_daq_inject true [] running sample_header
          (5 ∷ 6 ∷ [])
          2
          (pos 1)
        ≡ some (code, afpc'))
    × (((frame.available ≡ false) × (code ≡ daq_success) × (afpc' ≡ running))
        ⊎ ((frame.available ≡ true)
            × ((ring' : TxRing) × (get_elem? afpc'.instances 0
                  ≡ some (record sender { tx_ring = some ring' }))
                × HandedOver ring ring' (5 ∷ 6 ∷ []) 2)
            × Answered code running afpc'))
unfolding program
afpacket_inject_lem_example =
    afpacket_inject_lem true [] running sample_header (5 ∷ 6 ∷ []) 2 (pos 1) 0 sender ring refl refl
      refl (omega arith) (omega arith)

abbrev ten_of_three : Instance → Option TpacketStats
ten_of_three = λ x. some (record { tp_packets = 10; tp_drops = 3 })

update_hw_lem_example :
    ((update_hw_stats ten_of_three running).stats.hw_packets_received % 2 ^ 64
      ≡ (0 + total (λ x. seen (ten_of_three x)) running.instances) % 2 ^ 64)
    × ((update_hw_stats ten_of_three running).stats.hw_packets_dropped % 2 ^ 64
        ≡ (0 + total (λ x. dropped (ten_of_three x)) running.instances) % 2 ^ 64)
update_hw_lem_example = update_hw_lem ten_of_three running refl ((omega arith, omega arith), tt)

get_stats-stop_example :
    (afpacket_daq_get_stats (λ x. none) (afpacket_daq_stop ten_of_three running).1).1
    ≡ (afpacket_daq_get_stats ten_of_three running).1
get_stats-stop_example = get_stats-stop ten_of_three (λ x. none) running
