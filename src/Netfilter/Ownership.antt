-- ===== src/Netfilter/Ownership.antt =====
-- What an instance of os-daq-modules/daq_nfq.c or os-daq-modules/daq_ipq.c holds, and what was taken and
-- given back.
use libdaq.Prelude.{
  ℕ, ◌+◌, ◌≢◌, List, [], ◌∷◌, ◌++◌, Bool, true, false, ◌==◌, if◌then◌else◌, ◌≡◌, refl, arith,
}
use libdaq.Netfilter.{Event, Resource, number, given_if, times_taken, times_given}

-- Everything but the texts of devices was given back as often as it was taken.
abbrev pub AllGiven : List Event → Type 0
AllGiven es = (r : Resource) → r ≢ Resource.device_text → times_taken r es ≡ times_given r es

pub times_taken-append :
    (r : Resource) (es fs : List Event)
    → times_taken r (es ++ fs) ≡ times_taken r es + times_taken r fs
unfolding times_taken
times_taken-append r [] fs = omega arith
times_taken-append r (Event.took q ∷ es) fs = ground (arith, times_taken-append r es fs)
times_taken-append r (Event.gave q ∷ es) fs = times_taken-append r es fs

pub times_given-append :
    (r : Resource) (es fs : List Event)
    → times_given r (es ++ fs) ≡ times_given r es + times_given r fs
unfolding times_given
times_given-append r [] fs = omega arith
times_given-append r (Event.took q ∷ es) fs = times_given-append r es fs
times_given-append r (Event.gave q ∷ es) fs = ground (arith, times_given-append r es fs)

pub times_given-given_if :
    (r q : Resource) (b : Bool) (es : List Event)
    → times_given r (given_if b q es)
      ≡ (if number r == number q then (if b then 1 else 0) else 0) + times_given r es
unfolding times_given
times_given-given_if r q true es = ground arith
times_given-given_if r q false es = ground arith

pub times_taken-given_if :
    (r q : Resource) (b : Bool) (es : List Event)
    → times_taken r (given_if b q es) ≡ times_taken r es
unfolding times_taken
times_taken-given_if r q true es = refl
times_taken-given_if r q false es = refl

pub ruleset giving = (times_given-given_if, times_taken-given_if)

abbrev bit : Bool → ℕ
bit b = if b then 1 else 0

-- What an instance holds, besides the texts of devices.
pub record Held : Type 0 where
  pub buffer : Bool
  pub library_handle : Bool
  pub queue : Bool
  pub link : Bool
  pub net : Bool

abbrev pub holds : Held → Resource → ℕ
holds h r =
    if number r == 0
    then 1
    else if number r == 2
    then bit h.buffer
    else if number r == 3
    then bit h.library_handle
    else if number r == 4
    then bit h.queue
    else if number r == 5
    then bit h.link
    else if number r == 6
    then bit h.net
    else 0

-- An instance holds what was taken, and nothing was given back.
abbrev pub Owns : Held → List Event → Type 0
Owns h es =
    (r : Resource)
    → r ≢ Resource.device_text
    → (times_taken r es ≡ holds h r) × (times_given r es ≡ 0)

-- What gives back all that is held.
abbrev pub GivesBack : Held → List Event → Type 0
GivesBack h fs =
    (r : Resource)
    → r ≢ Resource.device_text
    → (times_given r fs ≡ holds h r) × (times_taken r fs ≡ 0)

pub Owns-GivesBack :
    (h : Held) (es fs : List Event) → Owns h es → GivesBack h fs → AllGiven (fs ++ es)
Owns-GivesBack h es fs owns gives r other =
    let (given, taken) = gives r other in
    let (held, kept) = owns r other in
    omega (arith, given, taken, held, kept, times_taken-append r fs es, times_given-append r fs es)

-- One resource more.
pub Owns-took :
    (h h' : Held) (q : Resource) (es : List Event)
    → ((r : Resource) → holds h' r ≡ holds h r + (if number r == number q then 1 else 0))
    → Owns h es
    → Owns h' (Event.took q ∷ es)
unfolding times_taken times_given
Owns-took h h' q es more owns r other =
    let (held, kept) = owns r other in (ground (arith, more r, held), kept)

pub Owns-took-text :
    (h : Held) (es : List Event) → Owns h es → Owns h (Event.took Resource.device_text ∷ es)
unfolding times_taken times_given
Owns-took-text h es owns Resource.device_text other = absurd (other refl)
Owns-took-text h es owns Resource.context other = owns Resource.context other
Owns-took-text h es owns Resource.buffer other = owns Resource.buffer other
Owns-took-text h es owns Resource.library_handle other = owns Resource.library_handle other
Owns-took-text h es owns Resource.queue other = owns Resource.queue other
Owns-took-text h es owns Resource.link other = owns Resource.link other
Owns-took-text h es owns Resource.net other = owns Resource.net other

pub with_net :
    (h : Held) (r : Resource)
    → h.net ≡ false
    → holds (record h { net = true }) r
      ≡ holds h r + (if number r == number Resource.net then 1 else 0)
with_net h r e = ground (arith, e)

pub with_link :
    (h : Held) (r : Resource)
    → h.link ≡ false
    → holds (record h { link = true }) r
      ≡ holds h r + (if number r == number Resource.link then 1 else 0)
with_link h r e = ground (arith, e)

pub with_queue :
    (h : Held) (r : Resource)
    → h.queue ≡ false
    → holds (record h { queue = true }) r
      ≡ holds h r + (if number r == number Resource.queue then 1 else 0)
with_queue h r e = ground (arith, e)

pub with_handle :
    (h : Held) (r : Resource)
    → h.library_handle ≡ false
    → holds (record h { library_handle = true }) r
      ≡ holds h r + (if number r == number Resource.library_handle then 1 else 0)
with_handle h r e = ground (arith, e)

pub with_buffer :
    (h : Held) (r : Resource)
    → h.buffer ≡ false
    → holds (record h { buffer = true }) r
      ≡ holds h r + (if number r == number Resource.buffer then 1 else 0)
with_buffer h r e = ground (arith, e)
