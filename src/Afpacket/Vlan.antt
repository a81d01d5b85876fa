-- ===== src/Afpacket/Vlan.antt =====
-- os-daq-modules/daq_afpacket.c: the part of `afpacket_daq_acquire` that puts a stripped VLAN tag back
-- into a packet, on the bytes of its frame.
use libdaq.Prelude.{
  ℕ, zero, suc, ◌+◌, ◌-◌, ◌/◌, ◌%◌, List, [], ◌∷◌, ◌++◌, length, take, drop, Option, none, some,
  Bool, ◌==◌, ◌&&◌, ◌||◌, not, ltb, leb, if◌then◌else◌, bit_and,
}
use libdaq.Afpacket.Peers.{RxFrame}

-- TP_STATUS_VLAN_VALID and TP_STATUS_VLAN_TPID_VALID of <linux/if_packet.h>, ETH_P_8021Q.
abbrev pub tp_status_vlan_valid : ℕ
tp_status_vlan_valid = 0x10

abbrev pub tp_status_vlan_tpid_valid : ℕ
tp_status_vlan_tpid_valid = 0x40

abbrev pub eth_p_8021q : ℕ
eth_p_8021q = 0x8100

abbrev pub has_flag : ℕ → ℕ → Bool
has_flag status flag = not (bit_and status flag == 0)

-- memcpy to a place in a block.
unfoldable pub write_at : List ℕ → ℕ → List ℕ → List ℕ
write_at xs zero bytes = bytes ++ drop (length bytes) xs
write_at [] (suc n) bytes = []
write_at (x ∷ xs) (suc n) bytes = x ∷ write_at xs n bytes

-- A word of 16 bits in network order.
abbrev pub be16 : ℕ → List ℕ
be16 n = n / 256 % 256 ∷ n % 256 ∷ []

-- `data`, `tp_snaplen` and `tp_len`, with the bytes of the frame.
pub record Packet : Type 0 where
  pub raw : List ℕ
  pub at : ℕ
  pub caplen : ℕ
  pub pktlen : ℕ

abbrev pub payload : Packet → List ℕ
payload p = take p.caplen (drop p.at p.raw)

-- The condition: a tag was stripped and both addresses are there (`vlan_offset` is 12).
unfoldable pub has_tag : RxFrame → Bool
has_tag f =
    (not (f.tp_vlan_tci == 0) || has_flag f.tp_status tp_status_vlan_valid) && leb 12 f.tp_snaplen

unfoldable pub tpid_of : RxFrame → ℕ
tpid_of f =
    if not (f.tp_vlan_tpid == 0) && has_flag f.tp_status tp_status_vlan_tpid_valid
    then f.tp_vlan_tpid
    else eth_p_8021q

-- `struct vlan_tag` as it is stored.
unfoldable pub tag_of : RxFrame → List ℕ
unfolding tpid_of
tag_of f = be16 (tpid_of f) ++ be16 f.tp_vlan_tci

-- The addresses are moved down by VLAN_TAG_LEN, the tag follows.
unfoldable pub tagged : RxFrame → Packet
unfolding write_at tag_of
tagged f =
    let at = f.tp_mac - 4 in
    let moved = write_at f.raw at (take 12 (drop f.tp_mac f.raw)) in
    record {
      raw = write_at moved (at + 12) (tag_of f);
      at = at;
      caplen = f.tp_snaplen + 4;
      pktlen = f.tp_len + 4;
    }

-- The result none is a write before the frame.
unfoldable pub insert_tag : RxFrame → Option Packet
unfolding tagged
insert_tag f = if ltb f.tp_mac 4 then none else some (tagged f)

abbrev pub untagged : RxFrame → Packet
untagged f = record { raw = f.raw; at = f.tp_mac; caplen = f.tp_snaplen; pktlen = f.tp_len }

unfoldable pub rebuild : RxFrame → Option Packet
unfolding has_tag insert_tag
rebuild f = if has_tag f then insert_tag f else some (untagged f)
