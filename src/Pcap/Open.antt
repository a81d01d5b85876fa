-- ===== src/Pcap/Open.antt =====
-- os-daq-modules/daq_pcap.c: `pcap_daq_open`.
use libdaq.Prelude.{
  ℕ, ℤ, pos, negsuc, eqb_ℤ, CString, codes, ◌++◌, Option, none, some, Bool, true, false, ◌==◌, ◌||◌,
  if◌then◌else◌,
}
use libdaq.Common.{daq_success, daq_error}
use libdaq.Pcap.{Libpcap, Context, set_error}

-- A handle that is being configured: as `goto fail` leaves it, with the status, or still good.
pub data Setup (P : Type 0) : Type 0 where
  good : P → Setup P
  failed : P → ℤ → Setup P

abbrev pub is_negative : ℤ → Bool
is_negative (pos n) = false
is_negative (negsuc n) = true

-- `if ((status = f(handle)) < 0) goto fail;`
unfoldable pub try_set : {P : Type 0} → (P → P × ℤ) → Setup P → Setup P
try_set f (Setup.failed p status) = Setup.failed p status
try_set f (Setup.good p) =
    if is_negative (f p).1 then Setup.failed (f p).0 (f p).1 else Setup.good (f p).0

abbrev pub one_if : Bool → ℤ
one_if true = pos 1
one_if false = pos 0

-- `context->promisc_flag ? 1 : 0`.
abbrev pub flag_int : ℕ → ℤ
flag_int n = if n == 0 then pos 0 else pos 1

abbrev pub int_flag : ℤ → ℤ
int_flag n = if eqb_ℤ n (pos 0) then pos 0 else pos 1

-- The default of the netmask, which is also what a found one is replaced by.
abbrev pub default_net : ℕ
default_net = 0xFFFFFF00

-- PCAP_ERROR, PCAP_ERROR_NO_SUCH_DEVICE and PCAP_ERROR_PERM_DENIED, whose text is pcap_geterr's.
abbrev pub has_own_text : ℤ → Bool
has_own_text status =
    eqb_ℤ status (negsuc 0) || (eqb_ℤ status (negsuc 4) || eqb_ℤ status (negsuc 7))

module _ {P F : Type 0} (pcap : Libpcap P F) where
  -- The settings of a live handle, in order.
  unfoldable pub configure : Context P → P → Setup P
  unfolding try_set
  configure context p = try_set pcap.activate (
      try_set (λ h. pcap.set_buffer_size h context.buffer_size)
        (try_set (λ h. pcap.set_timeout h context.timeout)
          (try_set (λ h. pcap.set_promisc h (flag_int context.promisc_flag))
            (try_set (λ h. pcap.set_snaplen h context.snaplen)
              (try_set (λ h. pcap.set_immediate_mode h (int_flag context.immediate_flag))
                (Setup.good p))))))

  -- The label `fail`: the handle is closed.
  unfoldable pub open_failed : Context P → CString → P → ℤ → ℤ × Context P
  open_failed context device p status = (
    daq_error,
    set_error (record context { handle = none })
        (if has_own_text status
          then pcap.geterr p
          else (device ++ (codes ": " ++ pcap.statustostr status))),
  )

  abbrev pub lookup_text : Context P → CString → Context P
  lookup_text context device = elim (pcap.lookupnet device) [
    | none ↦ context
    | some text ↦ record context { errbuf = text }
  ]

  abbrev pub opened : Context P → P → ℤ × Context P
  opened context p =
      (daq_success, record context { handle = some p; netmask = pcap.htonl default_net })

  -- The branch of a device, with the answer of pcap_create.
  unfoldable pub open_live : Context P → CString → Option P × CString → ℤ × Context P
  unfolding configure open_failed
  open_live context device (none, text) = (daq_error, record context { errbuf = text })
  open_live context device (some p, text) = elim (configure context p) [
    | Setup.failed q status ↦ open_failed (record context { errbuf = text }) device q status
    | Setup.good q ↦ opened (lookup_text (record context { errbuf = text }) device) q
  ]

  unfoldable pub open_file : Context P → Option P × CString → ℤ × Context P
  open_file context (none, text) = (daq_error, record context { errbuf = text })
  open_file context (some p, text) = opened (record context { errbuf = text }) p

  -- `pcap_open_offline(context->file, ...)`; a NULL name faults.
  unfoldable pub open_offline : Context P → Option CString → Option (ℤ × Context P)
  unfolding open_file
  open_offline context none = none
  open_offline context (some file) = some (open_file context (pcap.open_offline file))

  -- `pcap_daq_open` without a handle.
  unfoldable pub open_new : Context P → Option (ℤ × Context P)
  unfolding open_live open_offline
  open_new context = elim context.device [
    | none ↦ open_offline context context.file
    | some device ↦ some (open_live context device (pcap.create device))
  ]

  -- `pcap_daq_open`.
  unfoldable pub pcap_daq_open : Context P → Option (ℤ × Context P)
  unfolding open_new
  pcap_daq_open context = elim context.handle [
    | none ↦ open_new context
    | some p ↦ some (daq_success, context)
  ]
