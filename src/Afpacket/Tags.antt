-- ===== src/Afpacket/Tags.antt =====
-- os-daq-modules/daq_afpacket.c: the packet with its VLAN tag.
use libdaq.Prelude.{ℕ, List, ◌++◌, take, drop, if◌then◌else◌}
use libdaq.Afpacket.Peers.{RxFrame}
use libdaq.Afpacket.Vlan.{has_tag, tag_of}

-- The packet as it was on the wire, of which the frame has the bytes from `tp_mac` on.
abbrev pub seen_bytes : RxFrame → List ℕ
seen_bytes f = take f.tp_snaplen (drop f.tp_mac f.raw)

abbrev pub on_wire : RxFrame → List ℕ
on_wire f =
    if has_tag f
    then take 12 (seen_bytes f) ++ (tag_of f ++ drop 12 (seen_bytes f))
    else seen_bytes f
