-- ===== src/Afpacket/Analyse.antt =====
-- os-daq-modules/daq_afpacket.c: what `afpacket_daq_acquire` does with one packet, and
-- `afpacket_daq_set_filter`. The result none is an access outside a ring or a frame.
use libdaq.Prelude.{
  ℕ, suc, ◌+◌, ◌/◌, ℤ, negsuc, CString, codes, List, [], ◌∷◌, length, take, get_elem?, get_or, set,
  Option, none, some, Bool, true, false, ◌==◌, ◌||◌, not, ltb, leb, if◌then◌else◌, ◌>>=◌,
}
use libdaq.Common.{
  PktHdr, inc64, count_verdict, max_daq_verdict, verdict_pass, daq_success, daq_error,
}
use libdaq.Module.{Callback, in_place}
use libdaq.Afpacket.Peers.{RxFrame, RxRing, Instance, Context, with_instance, put_frame}
use libdaq.Afpacket.Vlan.{Packet, payload, write_at, rebuild}

abbrev pub set_error : Context → CString → Context
set_error afpc text = record afpc { errbuf = take 255 text }

-- `afpacket_daq_set_filter`, with the answers of strdup and sfbpf_compile.
unfoldable pub afpacket_daq_set_filter :
    Option CString → (ℤ → CString → Option ℕ) → Context → ℤ × Context
afpacket_daq_set_filter none compile afpc = (
  daq_error,
  set_error (record afpc { filter = none })
      (codes "afpacket_daq_set_filter: Couldn't allocate memory for the filter string!"),
)
afpacket_daq_set_filter (some filter) compile afpc = elim (compile afpc.snaplen filter) [
  | none ↦ (
    daq_error,
    set_error (record afpc { filter = some filter })
        (codes "afpacket_daq_set_filter: BPF state machine compilation failed!"),
  )
  | some fcode ↦ (daq_success, record afpc { filter = some filter; fcode = some fcode })
]

-- TP_STATUS_USER and TP_STATUS_KERNEL of <linux/if_packet.h>.
abbrev pub tp_status_user : ℕ
tp_status_user = 1

abbrev pub tp_status_kernel : ℕ
tp_status_kernel = 0

-- `verdict_translation_table`.
abbrev pub verdict_translation_table : List ℕ
verdict_translation_table = 0 ∷ 1 ∷ 0 ∷ 0 ∷ 1 ∷ 0 ∷ 1 ∷ []

-- `if (verdict >= MAX_DAQ_VERDICT) verdict = DAQ_VERDICT_PASS;`
abbrev pub afpacket_verdict : ℕ → ℕ
afpacket_verdict v = if leb max_daq_verdict v then verdict_pass else v

-- DAQ_PKTHDR_UNKNOWN.
abbrev pub pkthdr_unknown : ℤ
pkthdr_unknown = negsuc 0

-- `daqhdr`.
unfoldable pub afpacket_header : RxFrame → Packet → ℤ → ℤ → PktHdr
afpacket_header f p ingress egress = record {
  tv_sec = f.tp_sec;
  tv_usec = f.tp_nsec / 1000;
  caplen = p.caplen;
  pktlen = p.pktlen;
  ingress_index = ingress;
  egress_index = egress;
  ingress_group = pkthdr_unknown;
  egress_group = pkthdr_unknown;
  flags = 0;
  address_space_id = 0;
}

-- `instance->peer ? instance->peer->index : DAQ_PKTHDR_UNKNOWN`.
unfoldable pub egress_index_of : List Instance → Option ℕ → Option ℤ
egress_index_of is none = some pkthdr_unknown
egress_index_of is (some j) = do peer ← get_elem? is j; some peer.index

-- The branch of a packet that passes: a TX frame that is not free drops it.
unfoldable pub forward_packet : Context → Option ℕ → Packet → Option Context
forward_packet afpc none p = some afpc
forward_packet afpc (some j) p = do
  peer ← get_elem? afpc.instances j
  ring ← peer.tx_ring
  frame ← get_elem? ring.frames ring.cursor
  (if not frame.available
      then some afpc
      else if ltb ring.room p.caplen
      then none
      else some (
          with_instance afpc j
            (record peer { tx_ring = some (put_frame ring (payload p) p.caplen) })))

-- The frame goes back to the kernel, and the cursor to the next one.
abbrev pub released : RxRing → RxFrame → Packet → RxRing
released ring f p = record ring {
  frames = set ring.frames ring.cursor (record f { tp_status = tp_status_kernel; raw = p.raw });
  cursor = if suc ring.cursor == length ring.frames then 0 else suc ring.cursor;
}

unfoldable pub release : Context → ℕ → RxFrame → Packet → Option Context
release afpc i f p = do
  instance ← get_elem? afpc.instances i
  some (with_instance afpc i (record instance { rx_ring = released instance.rx_ring f p }))

-- A packet after its analysis: the verdict, whether the filter let it through, and the bytes of its frame.
pub record Analysed (U : Type 0) : Type 0 where
  pub afpc : Context
  pub user : U
  pub verdict : ℕ
  pub got : Bool
  pub raw : List ℕ

-- The packet as the application left it in its frame.
abbrev pub left_in : {U : Type 0} → Packet → Analysed U → Packet
left_in p a = record p { raw = a.raw }

-- The state of a pass over the instances.
pub record Walk (U : Type 0) : Type 0 where
  pub afpc : Context
  pub user : U
  pub got_one : Bool
  pub ignored_one : Bool
  pub count : ℕ

pub data Pass (U : Type 0) : Type 0 where
  ended : ℤ → Walk U → Pass U
  went : Walk U → Pass U

-- `breaks` tells whether the application has called `afpacket_daq_breakloop` in a call of the callback,
-- from the state that it left.
module _ {U : Type 0} (sfbpf_filter : ℕ → List ℕ → ℕ → ℕ → ℕ) (callback : Option (Callback U))
    (breaks : U → Bool) where
  unfoldable pub ask : Context → U → PktHdr → List ℕ → Context × U × ℕ × List ℕ
  ask afpc user hdr bytes = elim callback [
    | none ↦ (afpc, user, verdict_pass, bytes)
    | some analyse ↦
        let (user', v, left) = analyse user hdr bytes in
        (
          record afpc {
            stats = record afpc.stats {
              verdicts = count_verdict afpc.stats.verdicts (afpacket_verdict v);
            };
            break_loop = afpc.break_loop || breaks user';
          },
          user',
          get_or verdict_translation_table (afpacket_verdict v) 0,
          in_place bytes left,
        )
  ]

  abbrev pub filtered_out : Option ℕ → Packet → Bool
  filtered_out none p = false
  filtered_out (some fcode) p = sfbpf_filter fcode (payload p) p.pktlen p.caplen == 0

  -- From the filter to the counters.
  unfoldable pub analyse_packet : Context → U → PktHdr → Packet → Analysed U
  unfolding ask
  analyse_packet afpc user hdr p =
      if filtered_out afpc.fcode p
      then record {
        afpc = record afpc {
          stats = record afpc.stats { packets_filtered = inc64 afpc.stats.packets_filtered };
        };
        user = user;
        verdict = verdict_pass;
        got = false;
        raw = p.raw;
      }
      else (let (afpc', user', v, left) = ask afpc user hdr (payload p) in
          record {
            afpc = record afpc' {
              stats = record afpc'.stats { packets_received = inc64 afpc'.stats.packets_received };
            };
            user = user';
            verdict = v;
            got = true;
            raw = write_at p.raw p.at left;
          })

  -- `send_packet`, and what follows it.
  unfoldable pub finish_packet :
      Walk U → ℕ → Instance → RxFrame → Packet → Analysed U → Option (Walk U)
  unfolding forward_packet release
  finish_packet w i instance f p a = do
    afpc ←
        (if a.verdict == verdict_pass
          then forward_packet a.afpc instance.peer (left_in p a)
          else some a.afpc)
    afpc' ← release afpc i f (left_in p a)
    some (record {
      afpc = afpc';
      user = a.user;
      got_one = w.got_one || a.got;
      ignored_one = w.ignored_one || not a.got;
      count = if a.got then suc w.count else w.count;
    })

  -- A frame whose packet is inside the frame size.
  unfoldable pub handle_frame : Walk U → ℕ → Instance → RxFrame → Option (Walk U)
  unfolding afpacket_header egress_index_of analyse_packet finish_packet
  handle_frame w i instance f = if ltb (length f.raw) (f.tp_mac + f.tp_snaplen) then none else (do
    p ← rebuild f
    egress ← egress_index_of w.afpc.instances instance.peer
    finish_packet w i instance f p
        (analyse_packet w.afpc w.user (afpacket_header f p instance.index egress) p))
