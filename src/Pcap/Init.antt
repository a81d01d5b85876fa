-- ===== src/Pcap/Init.antt =====
-- os-daq-modules/daq_pcap.c: `pcap_daq_initialize` and `translate_PCAP_FRAMES`. What getenv and strdup
-- answer are arguments; the result none is a fault.
use libdaq.Prelude.{
  ℕ, zero, suc, ◌+◌, ◌-◌, ◌*◌, ◌/◌, ◌^◌, ℤ, pos, negsuc, eqb_ℤ, CString, codes, str_eq, int_of,
  take, List, [], ◌∷◌, ◌++◌, Option, none, some, Bool, true, false, ◌==◌, ◌||◌, leb, ltb,
  if◌then◌else◌, ◌>>=◌, bit_and,
}
use libdaq.Common.{
  Config, DictEntry, daq_success, daq_error, daq_error_nomem, mode_read_file, state_initialized,
}
use libdaq.Module.{InitReply}
use libdaq.Pcap.{Libpcap, Context, fresh_context}
use libdaq.Pcap.Open.{pcap_daq_open}

-- DAQ_CFG_PROMISC.
abbrev pub cfg_promisc : ℕ
cfg_promisc = 0x01

-- What the code takes from the headers of Linux: TPACKET_ALIGN, TPACKET_HDRLEN, sizeof(struct
-- sockaddr_ll) and getpagesize().
pub record Frames : Type 0 where
  pub align : ℕ → ℕ
  pub tpacket_hdrlen : ℕ
  pub sizeof_sockaddr_ll : ℕ
  pub page_size : ℕ

-- `while (block_size < frame_size) block_size <<= 1;` on an int, which must not overflow.
unfoldable pub grow_block : ℕ → ℕ → ℕ → Option ℕ
grow_block zero block frame = none
grow_block (suc fuel) block frame =
    let rest = grow_block fuel (block * 2) frame in
    if ltb block frame then (if ltb (block * 2) (2 ^ 31) then rest else none) else some block

-- `frames * block_size / frames_per_block`, rounded towards 0.
unfoldable pub frames_size : ℤ → ℕ → ℕ → Option ℤ
frames_size (pos n) block per_block =
    if ltb (n * block) (2 ^ 31) then some (pos (n * block / per_block)) else none
frames_size (negsuc n) block per_block =
    if leb ((n + 1) * block) (2 ^ 31)
    then (if (n + 1) * block / per_block == 0
        then some (pos 0)
        else some (negsuc ((n + 1) * block / per_block - 1)))
    else none

-- `strncmp(s, "max", 3)` and the like find equality.
abbrev pub is_max : CString → Bool
is_max s = str_eq (take 3 s) (codes "max") || str_eq (take 3 s) (codes "MAX")

-- `translate_PCAP_FRAMES` for a snap length from 0 on and a frame size that an int holds.
unfoldable pub translate_pcap_frames : Frames → Option CString → ℕ → Option ℤ
unfolding grow_block frames_size
translate_pcap_frames k none snaplen = some (pos 0)
translate_pcap_frames k (some s) snaplen =
    let frame = k.align (snaplen + k.align k.tpacket_hdrlen + k.sizeof_sockaddr_ll) in
    let frames = if is_max s then pos 0x8000 else int_of s in
    if frame == 0 || leb (2 ^ 31) frame
    then none
    else (do block ← grow_block 32 k.page_size frame; frames_size frames block (block / frame))

-- The loop over the values; strtol of NULL faults.
unfoldable pub read_values : {P : Type 0} → List DictEntry → Context P → Option (Context P)
read_values [] context = some context
read_values (entry ∷ es) context =
    if str_eq entry.key (codes "buffer_size")
    then (do v ← entry.value; read_values es (record context { buffer_size = int_of v }))
    else if str_eq entry.key (codes "immediate")
    then (do v ← entry.value; read_values es (record context { immediate_flag = int_of v }))
    else read_values es context

-- A negative snap length is not followed into the C conversions.
unfoldable pub legacy_size : {P : Type 0} → Frames → Option CString → Context P → Option (Context P)
legacy_size k frames_str context =
    if eqb_ℤ context.buffer_size (pos 0)
    then (elim context.snaplen [
      | pos n ↦ (do
        size ← translate_pcap_frames k frames_str n
        some (record context { buffer_size = size }))
      | negsuc n ↦ elim frames_str [ none ↦ some context | some s ↦ none ]
    ])
    else some context

abbrev pub no_memory_text : CString → CString
no_memory_text what =
    codes "pcap_daq_initialize: Couldn't allocate memory for the " ++ (what ++ codes " string!")

module _ {P F : Type 0} (pcap : Libpcap P F) where
  abbrev pub refused : ℤ → CString → InitReply (Context P)
  refused code text = record { code = code; handle = none; errbuf = text }

  abbrev pub ready : Context P → InitReply (Context P)
  ready context = record {
    code = daq_success;
    handle = some (record context { hwupdate_count = 0; state = state_initialized });
    errbuf = [];
  }

  -- In read-file mode the file is opened at once.
  unfoldable pub init_file : ℕ → Context P → Option CString → Option (InitReply (Context P))
  init_file len context none =
      some (refused daq_error_nomem (take (len - 1) (no_memory_text (codes "filename"))))
  init_file len context (some name) = do
    res ← pcap_daq_open pcap (record context { file = some name; delayed_open = false })
    (if eqb_ℤ res.0 daq_success
        then some (ready res.1)
        else some (refused daq_error (take (len - 1) res.1.errbuf)))

  unfoldable pub init_device : ℕ → Context P → Option CString → InitReply (Context P)
  init_device len context none =
      refused daq_error_nomem (take (len - 1) (no_memory_text (codes "device")))
  init_device len context (some name) =
      ready (record context { device = some name; delayed_open = true })

  -- `pcap_daq_initialize`, once memory is there.
  unfoldable pub init_context :
      Frames
      → Option CString
      → (CString → Option CString)
      → ℕ
      → Config
      → Option (InitReply (Context P))
  unfolding read_values legacy_size init_file init_device
  init_context k frames_str strdup len config = do
    context ← read_values config.values (record fresh_context {
      snaplen = config.snaplen;
      promisc_flag = bit_and config.flags cfg_promisc;
      timeout = config.timeout;
    })
    context' ← legacy_size k frames_str context
    (if config.mode == mode_read_file
        then init_file len context' (strdup config.name)
        else some (init_device len context' (strdup config.name)))

  -- `pcap_daq_initialize`.
  unfoldable pub pcap_daq_initialize :
      Bool
      → Frames
      → Option CString
      → (CString → Option CString)
      → ℕ
      → Config
      → Option (InitReply (Context P))
  unfolding init_context
  pcap_daq_initialize false k frames_str strdup len config = some (
      refused daq_error_nomem (
        take (len - 1)
          (codes "pcap_daq_initialize: Couldn't allocate memory for the new PCAP context!")))
  pcap_daq_initialize true k frames_str strdup len config =
      init_context k frames_str strdup len config
