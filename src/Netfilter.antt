-- ===== src/Netfilter.antt =====
-- What os-daq-modules/daq_nfq.c and os-daq-modules/daq_ipq.c share: packets that the kernel holds
-- back until it is given a verdict on each of them, and the resources that a module opens.
pub mod Ownership
pub mod Limits
use libdaq.Prelude.{
  ℕ, ◌+◌, ◌%◌, ◌^◌, ◌<◌, CString, List, [], ◌∷◌, ◌++◌, length, length-append, length-set, get_or,
  str_eq, map, take, Option, none, some, Bool, true, false, ◌==◌, leb, if◌then◌else◌, ◌≡◌, refl,
  ◌∙◌, arith,
}
use libdaq.Common.{Stats, PktHdr, inc64, count_verdict, max_daq_verdict, verdict_block}
use libdaq.Dump.Capture.{occurrences, count_step}
use libdaq.Dump.Vars.{lower}

-- NF_DROP and NF_ACCEPT of <linux/netfilter.h>.
abbrev pub nf_drop : ℕ
nf_drop = 0

abbrev pub nf_accept : ℕ
nf_accept = 1

-- PF_INET and PF_INET6 of <sys/socket.h>.
abbrev pub pf_inet : ℕ
pf_inet = 2

abbrev pub pf_inet6 : ℕ
pf_inet6 = 10

-- DLT_IPV4 and DLT_IPV6 of sfbpf/sfbpf_dlt.h.
abbrev pub dlt_ipv4 : ℕ
dlt_ipv4 = 228

abbrev pub dlt_ipv6 : ℕ
dlt_ipv6 = 229

-- IP_MAXPACKET of <netinet/ip.h>.
abbrev pub ip_maxpacket : ℕ
ip_maxpacket = 65535

-- `!strncasecmp(s, t, n)`.
unfoldable pub prefix_case_eq : ℕ → CString → CString → Bool
unfolding str_eq
prefix_case_eq n s t = str_eq (map lower (take n s)) (map lower (take n t))

-- A callback: the user pointer (none is NULL), the application's own state, and the packet's bytes, at
-- the end the bytes that the application leaves there.
abbrev pub Analysis : Type 0 → Type 0 → Type 0
Analysis U G = Option U → G → PktHdr → List ℕ → G × ℕ × List ℕ

-- What the kernel is told of a packet: its number, NF_ACCEPT or NF_DROP, and the bytes that replace it,
-- if there are any.
pub record NfVerdict : Type 0 where
  pub packet_id : ℕ
  pub verdict : ℕ
  pub bytes : List ℕ

-- What a module holds besides memory on the stack.
pub data Resource : Type 0 where
  context : Resource
  device_text : Resource
  buffer : Resource
  library_handle : Resource
  queue : Resource
  link : Resource
  net : Resource

pub data Event : Type 0 where
  took : Resource → Event
  gave : Resource → Event

abbrev pub number : Resource → ℕ
number Resource.context = 0
number Resource.device_text = 1
number Resource.buffer = 2
number Resource.library_handle = 3
number Resource.queue = 4
number Resource.link = 5
number Resource.net = 6

-- How often a resource was taken, and given back.
unfoldable pub times_taken : Resource → List Event → ℕ
times_taken r [] = 0
times_taken r (Event.took q ∷ es) =
    let n = times_taken r es in if number r == number q then n + 1 else n
times_taken r (Event.gave q ∷ es) = times_taken r es

unfoldable pub times_given : Resource → List Event → ℕ
times_given r [] = 0
times_given r (Event.took q ∷ es) = times_given r es
times_given r (Event.gave q ∷ es) =
    let n = times_given r es in if number r == number q then n + 1 else n

-- A resource is given back if it is there.
abbrev pub given_if : Bool → Resource → List Event → List Event
given_if false r es = es
given_if true r es = Event.gave r ∷ es

abbrev pub there : Option (List ℕ) → Bool
there none = false
there (some bytes) = true
