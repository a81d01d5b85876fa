-- ===== src/Ipq/Life.antt =====
-- os-daq-modules/daq_ipq.c: `ipq_daq_module_data`, the module's table of functions, and any history of
-- calls of the API (api/daq_mod_ops.c) on one of its instances.
use mathlib.Core.Option.{some-injective}
use libdaq.Prelude.{
  ℕ, suc, ◌≤◌, ℤ, pos, CString, codes, List, [], ◌∷◌, ◌++◌, take, Option, none, some, ◌≡◌, refl,
  sym, arith, Bool-cases, inl, inr, bit_or,
}
use libdaq.Common.{
  Config, PktHdr, type_intf_capable, type_inline_capable, type_multi_instance, type_no_unpriv,
  verdict_pass, daq_error, state_initialized, state_stopped,
}
use libdaq.Module.{Module, Callback, InitReply, daq_api_version}
use libdaq.ModOps.{daq_start, daq_acquire}
use libdaq.ModOps.Calls.{Call}
use libdaq.ModOps.Contract.{Contract, Moves}
use libdaq.ModOps.History.{run, run-Moves, stopped_for_good}
use libdaq.Ipfw.Acquire.{count_of}
use libdaq.Netfilter.{Analysis, NfVerdict}
use libdaq.Nfq.Acquire.{held_back}
use libdaq.Ipq.{
  IpqImpl, ipq_daq_set_filter, ipq_daq_start, ipq_daq_inject, ipq_daq_breakloop, ipq_daq_stop,
  ipq_daq_check_status, ipq_daq_get_stats, ipq_daq_reset_stats, ipq_daq_get_snaplen,
  ipq_daq_get_capabilities, ipq_daq_get_datalink_type, ipq_daq_get_errbuf, ipq_daq_set_errbuf,
  ipq_daq_get_device_index,
}
use libdaq.Ipq.Init.{IpqAnswers, ipq_daq_initialize}
use libdaq.Ipq.Acquire.{
  IpqMoment, IpqPacket, IpqRound, IpqSession, ipq_judge, ipq_handle, ipq_error, ipq_loop,
  ipq_daq_acquire,
}

-- What libipq, libdnet, sfbpf and the allocator answer; `rounds` has the rounds of each call of
-- `ipq_daq_acquire`, counted from 0, and `max` is the size of the caller's error buffer.
pub record IpqWorld (F : Type 0) : Type 0 where
  pub answers : IpqAnswers
  pub max : ℕ
  pub compile : ℕ → ℕ → CString → Option F
  pub strdup : CString → Option CString
  pub filter : F → List ℕ → ℕ → ℕ
  pub eth_send : List ℕ → ℤ
  pub ip_send : List ℕ → ℤ
  pub rounds : ℕ → List IpqRound

-- An instance with the verdicts that the kernel got, and the number of calls of `ipq_daq_acquire`.
pub record IpqHandle (F : Type 0) : Type 0 where
  pub impl : IpqImpl F
  pub given : List NfVerdict
  pub acquired : ℕ

abbrev with_impl : {F : Type 0} → IpqHandle F → ℤ × IpqImpl F → IpqHandle F × ℤ
with_impl h (code, impl) = (record h { impl = impl }, code)

-- The application's callback. A NULL one, which the code would call for a packet, is one that lets
-- each packet pass.
abbrev pub analysis_of : {U : Type 0} → Option (Callback U) → Analysis (Unit {0}) U
analysis_of none user app hdr bytes = (app, verdict_pass, [])
analysis_of (some callback) user app hdr bytes = callback app hdr bytes

-- The code of a loop that has ended; behind the rounds that are given ipq_read fails.
abbrev pub code_of : Option ℤ → ℤ
code_of none = daq_error
code_of (some code) = code

-- `ipq_daq_initialize`, with a handle.
unfoldable pub initialize_with : {F : Type 0} → IpqWorld F → Config → InitReply (IpqHandle F)
initialize_with {F} w cfg =
    let reply = (ipq_daq_initialize {F = F} w.answers cfg w.max).reply in
    record {
      code = reply.code;
      handle = elim reply.handle [
        | none ↦ none
        | some impl ↦ some (record { impl = impl; given = []; acquired = 0 })
      ];
      errbuf = reply.errbuf;
    }

module _ {F U : Type 0} where
  -- `ipq_daq_acquire` on a handle.
  unfoldable pub acquire_on :
      IpqWorld F → IpqHandle F → U → ℤ → Option (Callback U) → IpqHandle F × U × ℤ
  unfolding ipq_daq_acquire
  acquire_on w h app cnt callback =
      let rounds = w.rounds h.acquired ++ (IpqRound.read_failed [] ∷ []) in
      let (code, s) =
        ipq_daq_acquire w.filter (analysis_of callback) cnt none rounds
          (record { impl = h.impl; app = app; given = h.given }) in
      (record { impl = s.impl; given = s.given; acquired = suc h.acquired }, s.app, code_of code)

  -- `ipq_daq_module_data`.
  unfoldable pub ipq_daq_module_data : IpqWorld F → Module (IpqHandle F) U
  unfolding acquire_on initialize_with
  ipq_daq_module_data w = record {
    api_version = daq_api_version;
    module_version = 6;
    name = codes "ipq";
    type =
        bit_or (bit_or (bit_or type_intf_capable type_inline_capable) type_multi_instance)
          type_no_unpriv;
    initialize = some (initialize_with w);
    set_filter = some (λ h text. with_impl h (ipq_daq_set_filter w.compile w.strdup h.impl text));
    start = some (λ h. with_impl h (ipq_daq_start h.impl));
    acquire = some (λ h app cnt callback metaback. acquire_on w h app cnt callback);
    inject = some (λ h hdr buf len reverse.
        with_impl h (ipq_daq_inject w.eth_send w.ip_send h.impl (take len buf)));
    breakloop = some (λ h. with_impl h (ipq_daq_breakloop h.impl));
    stop = some (λ h. with_impl h (ipq_daq_stop h.impl));
    shutdown = some (λ h. tt);
    check_status = some (λ h. ipq_daq_check_status h.impl);
    get_stats = some (λ h stats. (h, (ipq_daq_get_stats h.impl).1, (ipq_daq_get_stats h.impl).0));
    reset_stats = some (λ h. record h { impl = ipq_daq_reset_stats h.impl });
    get_snaplen = some (λ h. pos (ipq_daq_get_snaplen h.impl));
    get_capabilities = some (λ h. ipq_daq_get_capabilities h.impl);
    get_datalink_type = some (λ h. pos (ipq_daq_get_datalink_type h.impl));
    get_errbuf = some (λ h. ipq_daq_get_errbuf h.impl);
    set_errbuf = some (λ h text. record h { impl = ipq_daq_set_errbuf h.impl (some text) });
    get_device_index = some (λ h device. ipq_daq_get_device_index h.impl device);
    modify_flow = none;
    hup_prep = none;
    hup_apply = none;
    hup_post = none;
    dp_add_dc = none;
    query_flow = none;
  }

module _ {F U G : Type 0} (filter : F → List ℕ → ℕ → ℕ) (callback : Analysis U G) where
  judge_state :
      (user : Option U) (s : IpqSession F G) (hdr : PktHdr) (payload : List ℕ)
      → (ipq_judge filter callback user s hdr payload).2.impl.state ≡ s.impl.state
  unfolding ipq_judge
  judge_state user s hdr payload =
      elim (Bool-cases (held_back filter s.impl.fcode (take hdr.caplen payload) hdr.caplen)) [
        | inl e ↦ rw e refl
        | inr e ↦ rw e refl
      ]

  handle_state :
      (user : Option U) (m : IpqMoment) (p : IpqPacket) (s : IpqSession F G)
      → (ipq_handle filter callback user m p s).impl.state ≡ s.impl.state
  unfolding ipq_handle ipq_daq_breakloop
  handle_state user m p s = elim (Bool-cases m.breaks) [
    | inl e ↦ rw e (judge_state user s _ _)
    | inr e ↦ rw e (judge_state user s _ _)
  ]

  loop_state :
      (user : Option U) (rs : List IpqRound) (n : ℕ) (s : IpqSession F G)
      → (ipq_loop filter callback user rs n s).1.impl.state ≡ s.impl.state
  unfolding ipq_loop
  loop_state user [] n s = ground arith
  loop_state user (IpqRound.read_failed text ∷ rs) n s = ground arith
  loop_state user (IpqRound.nothing ∷ rs) n s = refl
  loop_state user (IpqRound.other_message text ∷ rs) n s =
      let s' = ipq_error filter callback s (codes "ipq_message_type=") text in
      ground (arith, loop_state user rs n s')
  loop_state user (IpqRound.queued m p ∷ rs) n s =
      let s' = ipq_handle filter callback user m p s in
      ground (arith, handle_state user m p s, loop_state user rs (suc n) s')

abbrev pub status_in : {F : Type 0} → IpqHandle F → ℕ
status_in h = h.impl.state

same_function : {A : Type 0} {f g : A} → some f ≡ some g → f ≡ g
same_function {A} {f} {g} e = some-injective f g e

module _ {F : Type 0} (w : IpqWorld F) where
  set_filter_state :
      (impl : IpqImpl F) (text : CString)
      → (ipq_daq_set_filter w.compile w.strdup impl text).1.state ≡ impl.state
  unfolding ipq_daq_set_filter
  set_filter_state impl text = ground arith

  inject_state :
      (impl : IpqImpl F) (bytes : List ℕ)
      → (ipq_daq_inject w.eth_send w.ip_send impl bytes).1.state ≡ impl.state
  unfolding ipq_daq_inject
  inject_state impl bytes = ground arith

module _ {F U : Type 0} (w : IpqWorld F) where
  acquire_state :
      (h : IpqHandle F) (app : U) (cnt : ℤ) (g : Option (Callback U))
      → status_in (acquire_on w h app cnt g).0 ≡ status_in h
  unfolding acquire_on ipq_daq_acquire
  acquire_state h app cnt g =
      loop_state w.filter (analysis_of g) none
        (w.rounds h.acquired ++ (IpqRound.read_failed [] ∷ [])) 0
        (record { impl = record h.impl { count = count_of cnt }; app = app; given = h.given })

  -- The functions of the module keep the rules on the status.
  pub module_data-Contract : Contract (ipq_daq_module_data {U = U} w) status_in
  unfolding ipq_daq_module_data ipq_daq_start ipq_daq_stop ipq_daq_breakloop ipq_daq_check_status
      ipq_daq_reset_stats ipq_daq_set_errbuf
  module_data-Contract = record {
    reports = refl;
    starts = λ f e h s. rw (sym (same_function e)) (omega arith);
    stops = λ f e h s. rw (sym (same_function e)) (omega arith);
    filters = λ f e h text. rw (sym (same_function e)) (set_filter_state w h.impl text);
    acquires = λ f e h app n g g'. rw (sym (same_function e)) (acquire_state h app n g);
    injects = λ f e h hdr p n r. rw (sym (same_function e)) (inject_state w h.impl (take n p));
    breaks = λ f e h. rw (sym (same_function e)) refl;
    gets = λ f e h stats. rw (sym (same_function e)) refl;
    resets = λ f e h. rw (sym (same_function e)) refl;
    writes = λ f e h text. rw (sym (same_function e)) refl;
    prepares = λ f e h. cc;
    applies = λ f e h v. cc;
    posts = λ f e h v. cc;
    adds = λ f e h hdr k p v. cc;
    modifies = λ f e h hdr a. cc;
    queries = λ f e h hdr a. cc;
  }

  -- Over any history of calls of the API on an instance of the ipq module that is initialized, started
  -- or stopped, whatever libipq and the application do, the status never goes back and stays one
  -- of the three, as long as the instance is there.
  pub ipq_run-Moves :
      (calls : List (Call U)) (h : IpqHandle F)
      → state_initialized ≤ status_in h
      → status_in h ≤ state_stopped
      → Moves status_in (status_in h) (run (ipq_daq_module_data w) calls (some h))
  ipq_run-Moves calls h low high =
      run-Moves (ipq_daq_module_data w) status_in module_data-Contract calls h low high

  -- A stopped instance of the ipq module stays stopped over any history of calls of the API that it
  -- survives. Then `daq_start` and `daq_acquire` give DAQ_ERROR if they return, and the state of the
  -- user's callback is as before.
  pub ipq_stopped_for_good :
      (calls : List (Call U)) (h h' : IpqHandle F) (cnt : ℤ) (g : Option (Callback U)) (user : U)
      → status_in h ≡ state_stopped
      → run (ipq_daq_module_data w) calls (some h) ≡ some (some h')
      → (status_in h' ≡ state_stopped)
        × ((code : ℤ) (left : Option (IpqHandle F))
            → daq_start {U = U} (some (ipq_daq_module_data w)) (some h') ≡ some (code, left)
            → code ≡ daq_error)
        × ((code : ℤ) (left : Option (IpqHandle F)) (user' : U)
            → daq_acquire (some (ipq_daq_module_data w)) (some h') cnt g user
              ≡ some (code, left, user')
            → (code ≡ daq_error) × (user' ≡ user))
  ipq_stopped_for_good calls h h' cnt g user s e =
      stopped_for_good (ipq_daq_module_data w) status_in module_data-Contract calls h h' cnt g user
        s e
