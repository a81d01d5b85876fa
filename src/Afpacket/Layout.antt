-- ===== src/Afpacket/Layout.antt =====
-- os-daq-modules/daq_afpacket.c: `calculate_layout` and `create_ring`. The result none is a division
-- by zero, or the loop of `calculate_layout` still running after 33 rounds; its size is then 0.
use libdaq.Prelude.{
  ℕ, zero, suc, ◌+◌, ◌-◌, ◌*◌, ◌/◌, ◌%◌, ◌^◌, ℤ, pos, negsuc, eqb_ℤ, Option, none, some, ltb, ◌==◌,
  if◌then◌else◌, ◌>>=◌,
}
use libdaq.Common.{daq_success, daq_error}

-- What the code takes from the headers of Linux: TPACKET_ALIGN, sizeof(struct sockaddr_ll), ETH_HLEN
-- and getpagesize().
pub record Kernel : Type 0 where
  pub align : ℕ → ℕ
  pub sizeof_sockaddr_ll : ℕ
  pub eth_hlen : ℕ
  pub page_size : ℕ

-- struct tpacket_req.
pub record TpacketReq : Type 0 where
  pub block_size : ℕ
  pub block_nr : ℕ
  pub frame_size : ℕ
  pub frame_nr : ℕ

-- A value in an unsigned int.
abbrev pub u32 : ℕ → ℕ
u32 n = n % 2 ^ 32

-- An int as unsigned.
abbrev pub to_word : ℤ → ℕ
to_word (pos n) = u32 n
to_word (negsuc n) = 2 ^ 32 - 1 - u32 n

-- VLAN_TAG_LEN.
abbrev pub vlan_tag_len : ℕ
vlan_tag_len = 4

-- `netoff` and `layout->tp_frame_size`; the header is shorter than 2^32.
unfoldable pub frame_size_of : Kernel → ℕ → ℤ → ℕ
frame_size_of k tp_hdrlen snaplen =
    let tp_hdrlen_sll = u32 (k.align tp_hdrlen + k.sizeof_sockaddr_ll) in
    let netoff = u32 (k.align (u32 (tp_hdrlen_sll + k.eth_hlen)) + vlan_tag_len) in
    u32 (k.align (u32 (netoff + (2 ^ 32 - k.eth_hlen) + to_word snaplen)))

-- `while (tp_block_size < tp_frame_size) tp_block_size <<= 1;`
unfoldable pub grow : ℕ → ℕ → ℕ → Option ℕ
grow zero block_size frame_size = none
grow (suc fuel) block_size frame_size =
    let rest = grow fuel (u32 (block_size * 2)) frame_size in
    if ltb block_size frame_size then rest else some block_size

abbrev pub rounds : ℕ
rounds = 33

-- What follows the loop; the division by a frame size of 0 is a fault.
unfoldable pub fill_layout : ℕ → TpacketReq → Option (ℤ × TpacketReq)
fill_layout size layout =
    if layout.frame_size == 0
    then none
    else (let frames_per_block = layout.block_size / layout.frame_size in
        let block_nr = size / layout.frame_size / frames_per_block in
        if frames_per_block == 0
        then some (daq_error, layout)
        else some (
          daq_success,
          record layout { block_nr = block_nr; frame_nr = u32 (block_nr * frames_per_block) },
        ))

-- `calculate_layout`: `size` and `snaplen` are fields of the context.
unfoldable pub calculate_layout : Kernel → ℕ → ℤ → TpacketReq → ℕ → ℕ → Option (ℤ × TpacketReq)
unfolding frame_size_of fill_layout
calculate_layout k size snaplen layout tp_hdrlen order =
    let frame_size = frame_size_of k tp_hdrlen snaplen in
    (do
      block_size ← grow rounds (u32 (k.page_size * 2 ^ order)) frame_size
      fill_layout size (record layout { frame_size = frame_size; block_size = block_size }))

-- The answer of setsockopt to a layout: done, not enough memory, or another error.
pub data RingAnswer : Type 0 where
  created : RingAnswer
  no_memory : RingAnswer
  refused : RingAnswer

-- AFPacketRing before it is mapped: its layout and its size.
pub record RingRequest : Type 0 where
  pub layout : TpacketReq
  pub size : ℕ

-- One try: a code, or the next order.
unfoldable pub ask :
    RingAnswer → TpacketReq → RingRequest → Option (ℤ × RingRequest) → Option (ℤ × RingRequest)
ask RingAnswer.created layout ring retry =
    some (daq_success, record { layout = layout; size = u32 (layout.block_size * layout.block_nr) })
ask RingAnswer.no_memory layout ring retry = retry
ask RingAnswer.refused layout ring retry = some (daq_error, record ring { layout = layout })

module _ (k : Kernel) (kernel : TpacketReq → RingAnswer) (size : ℕ) (snaplen : ℤ)
    (tp_hdrlen : ℕ) where
  -- The tries with the orders below `orders`, from the highest on.
  unfoldable pub try_orders : ℕ → RingRequest → Option (ℤ × RingRequest)
  unfolding calculate_layout ask
  try_orders zero ring = some (daq_error, ring)
  try_orders (suc order) ring = do
    res ← calculate_layout k size snaplen ring.layout tp_hdrlen order
    (let retry = try_orders order (record ring { layout = res.1 }) in
        if eqb_ℤ res.0 daq_success
        then ask (kernel res.1) res.1 ring retry
        else some (daq_error, record ring { layout = res.1 }))

  -- `create_ring`, from DEFAULT_ORDER on.
  unfoldable pub create_ring : RingRequest → Option (ℤ × RingRequest)
  unfolding try_orders
  create_ring ring = try_orders 4 ring
