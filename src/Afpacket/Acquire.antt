-- ===== src/Afpacket/Acquire.antt =====
-- os-daq-modules/daq_afpacket.c: `afpacket_daq_acquire`. What the kernel does to the rings before a pass
-- and what poll answers after it are arguments. The result none is an access outside a ring or a frame.
use libdaq.Prelude.{
  ℕ, zero, suc, ◌+◌, ◌%◌, ◌^◌, ℤ, pos, negsuc, CString, codes, List, [], ◌∷◌, length, get_elem?,
  Option, none, some, Bool, true, false, ◌&&◌, not, ltb, if◌then◌else◌, ◌>>=◌,
}
use libdaq.Common.{daq_error}
use libdaq.Module.{Callback}
use libdaq.Afpacket.Peers.{RxFrame, Instance, Context}
use libdaq.Afpacket.Vlan.{has_flag}
use libdaq.Afpacket.Analyse.{Pass, Walk, handle_frame, set_error, tp_status_user}

-- What poll answers: an error, EINTR, nothing in time, or the events of the sockets.
pub record Revents : Type 0 where
  pub hup : Bool
  pub err : Bool
  pub nval : Bool

pub data Polled : Type 0 where
  poll_failed : CString → Polled
  poll_interrupted : Polled
  poll_timed_out : Polled
  poll_events : List Revents → Polled

-- The check of the events: the text for the first bad socket.
unfoldable pub bad_socket : List Revents → Option CString
bad_socket [] = none
bad_socket (r ∷ rs) =
    let rest = bad_socket rs in
    if r.hup
    then some (codes "afpacket_daq_acquire: Hang-up on a packet socket")
    else if r.err
    then some (codes "afpacket_daq_acquire: Encountered error condition on a packet socket")
    else if r.nval
    then some (codes "afpacket_daq_acquire: Invalid polling request on a packet socket")
    else rest

-- `c < cnt || cnt <= 0`.
unfoldable pub wants_more : ℤ → ℕ → Bool
wants_more (pos zero) c = true
wants_more (pos (suc n)) c = ltb c (suc n)
wants_more (negsuc n) c = true

-- What the call comes to: it has returned, or the loop still runs.
pub data Outcome (U : Type 0) : Type 0 where
  returned : ℤ → Walk U → Outcome U
  running : Walk U → Outcome U

abbrev pub corrupted_text : CString
corrupted_text = codes "afpacket_daq_acquire: Corrupted frame on kernel ring"

-- `breaks` tells whether the application has called `afpacket_daq_breakloop` in a call of the callback,
-- from the state that it left.
module _ {U : Type 0} (sfbpf_filter : ℕ → List ℕ → ℕ → ℕ → ℕ) (callback : Option (Callback U))
    (breaks : U → Bool) where
  -- A frame of the program's. The numbers in the text for a corrupted frame are left out.
  unfoldable pub visit_frame : Walk U → ℕ → Instance → RxFrame → Option (Pass U)
  unfolding handle_frame
  visit_frame w i instance f =
      if not (has_flag f.tp_status tp_status_user)
      then some (Pass.went w)
      else if ltb instance.rx_ring.frame_size ((f.tp_mac + f.tp_snaplen) % 2 ^ 32)
      then some (Pass.ended daq_error (record w { afpc = set_error w.afpc corrupted_text }))
      else (do w' ← handle_frame sfbpf_filter callback breaks w i instance f; some (Pass.went w'))

  -- One round of the loop over the instances.
  unfoldable pub visit_instance : Walk U → ℕ → Option (Pass U)
  unfolding visit_frame
  visit_instance w i =
      if w.afpc.break_loop
      then some (Pass.ended (pos 0) (record w { afpc = record w.afpc { break_loop = false } }))
      else (do
        instance ← get_elem? w.afpc.instances i
        f ← get_elem? instance.rx_ring.frames instance.rx_ring.cursor
        visit_frame w i instance f)

  -- The loop; `left` counts the rounds.
  unfoldable pub visit : ℕ → ℕ → Walk U → Option (Pass U)
  unfolding visit_instance
  visit zero i w = some (Pass.went w)
  visit (suc left) i w = do
    p ← visit_instance w i
    elim p [ Pass.ended code w' ↦ some (Pass.ended code w') | Pass.went w' ↦ visit left (suc i) w' ]

  -- After a pass without packets: the answer of poll ends the loop, or not.
  unfoldable pub after_poll : Polled → Walk U → Option ℤ × Walk U
  unfolding bad_socket
  after_poll (Polled.poll_failed text) w =
      (some daq_error, record w { afpc = set_error w.afpc text })
  after_poll Polled.poll_interrupted w = (none, w)
  after_poll Polled.poll_timed_out w = (some (pos 0), w)
  after_poll (Polled.poll_events rs) w = elim (bad_socket rs) [
    | none ↦ (none, w)
    | some text ↦ (some daq_error, record w { afpc = set_error w.afpc text })
  ]

  module _ (kernel : ℕ → List Instance → List Instance) (poll : ℕ → Polled) (cnt : ℤ) where
    -- A pass, from the state that the last one left.
    unfoldable pub pass : ℕ → Walk U → Option (Pass U)
    unfolding visit
    pass k w =
        let is = kernel k w.afpc.instances in
        visit (length is) 0 (record w {
          afpc = record w.afpc { instances = is };
          got_one = false;
          ignored_one = false;
        })

    unfoldable pub after_pass : ℕ → Walk U → Option ℤ × Walk U
    unfolding after_poll
    after_pass k w = if not w.got_one && not w.ignored_one then after_poll (poll k) w else (none, w)

    -- The loop, from its k-th pass on.
    unfoldable pub acquire_loop : ℕ → ℕ → Walk U → Option (Outcome U)
    unfolding pass after_pass
    acquire_loop zero k w =
        some (if wants_more cnt w.count then Outcome.running w else Outcome.returned (pos 0) w)
    acquire_loop (suc fuel) k w =
        if not (wants_more cnt w.count) then some (Outcome.returned (pos 0) w) else (do
          p ← pass k w
          elim p [
            | Pass.ended code w' ↦ some (Outcome.returned code w')
            | Pass.went w' ↦
                let (stop, w2) = after_pass k w' in
                elim stop [
                  | none ↦ acquire_loop fuel (suc k) w2
                  | some code ↦ some (Outcome.returned code w2)
                ]
          ])

    -- `afpacket_daq_acquire`, in a number of passes.
    unfoldable pub afpacket_daq_acquire : ℕ → Context → U → Option (Outcome U)
    unfolding acquire_loop
    afpacket_daq_acquire fuel afpc user =
        acquire_loop fuel 0
          (record { afpc = afpc; user = user; got_one = false; ignored_one = false; count = 0 })
