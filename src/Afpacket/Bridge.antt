-- ===== src/Afpacket/Bridge.antt =====
-- os-daq-modules/daq_afpacket.c: `create_bridge` makes two instances each other's peer.
use libdaq.Prelude.{
  ℕ, zero, suc, ◌+◌, CString, str_eq, List, [], ◌∷◌, Option, none, some, Bool, true, false,
  get_elem?, if◌then◌else◌, ◌≡◌, ◌≢◌, refl, sym, ap, ◌∙◌, arith,
}
use libdaq.Common.{daq_success}
use libdaq.Afpacket.Peers.{Instance, Context, find_peers, set_peer, link, create_bridge}

shift : (j i : ℕ) → j + suc i ≡ suc j + i
shift j i = omega arith

plus_zero : (j : ℕ) → j + 0 ≡ j
plus_zero j = omega arith

start : (i : ℕ) → i ≡ 0 + i
start i = omega arith

abbrev name_or : Option Instance → CString
name_or none = []
name_or (some x) = x.name

abbrev replace : ℕ → Option Instance → Option Instance
replace peer none = none
replace peer (some x) = some (record x { peer = some peer })

module _ (name1 name2 : CString) (all : List Instance) where
  -- The places that the loop may record.
  abbrev First : Option ℕ → Type 0
  First none = Unit
  First (some i) = (x : Instance) × (get_elem? all i ≡ some x) × (str_eq x.name name1 ≡ true)

  abbrev Second : Option ℕ → Type 0
  Second none = Unit
  Second (some i) =
      (x : Instance) × (get_elem? all i ≡ some x)
      × (str_eq x.name name1 ≡ false)
      × (str_eq x.name name2 ≡ true)

  abbrev Found : Option ℕ × Option ℕ → Type 0
  Found found = First found.0 × Second found.1

  -- What one round records.
  pick :
      (x : Instance) (i : ℕ) (peer1 peer2 : Option ℕ) (b b' : Bool)
      → get_elem? all i ≡ some x
      → str_eq x.name name1 ≡ b
      → str_eq x.name name2 ≡ b'
      → First peer1
      → Second peer2
      → Found (if b then (some i, peer2) else if b' then (peer1, some i) else (peer1, peer2))
  pick x i peer1 peer2 true b' head e e' first second = ((x, head, e), second)
  pick x i peer1 peer2 false true head e e' first second = (first, (x, head, e, e'))
  pick x i peer1 peer2 false false head e e' first second = (first, second)

  find_peers_lem :
      (is : List Instance) (i : ℕ) (found : Option ℕ × Option ℕ)
      → ((j : ℕ) → get_elem? all (j + i) ≡ get_elem? is j)
      → Found found
      → Found (find_peers name1 name2 i is found)
  unfolding find_peers
  find_peers_lem [] i found here places = places
  find_peers_lem (x ∷ is) i (peer1, peer2) here (first, second) =
      let tail : (j : ℕ) → get_elem? all (j + suc i) ≡ get_elem? is j =
        λ j. ap (get_elem? all) (shift j i) ∙ here (suc j) in
      let places' =
        pick x i peer1 peer2 (str_eq x.name name1) (str_eq x.name name2)
          (ap (get_elem? all) (start i) ∙ here 0) refl refl first second in
      find_peers_lem is (suc i) _ tail places'

set_peer_same :
    (is : List Instance) (i peer : ℕ) (x : Instance)
    → get_elem? is i ≡ some x
    → get_elem? (set_peer is i peer) i ≡ some (record x { peer = some peer })
unfolding set_peer
set_peer_same [] i peer x h = ground (arith, h)
set_peer_same (y ∷ is) zero peer x h = ap (replace peer) h
set_peer_same (y ∷ is) (suc i) peer x h = set_peer_same is i peer x h

set_peer_other :
    (is : List Instance) (i peer j : ℕ) → j ≢ i → get_elem? (set_peer is i peer) j ≡ get_elem? is j
unfolding set_peer
set_peer_other [] i peer j h = refl
set_peer_other (y ∷ is) zero peer zero h = absurd (h refl)
set_peer_other (y ∷ is) zero peer (suc j) h = refl
set_peer_other (y ∷ is) (suc i) peer zero h = refl
set_peer_other (y ∷ is) (suc i) peer (suc j) h = set_peer_other is i peer j (λ e. h (ap suc e))

-- The bridge between the instances at two places.
pub record Bridged (name1 name2 : CString) (is is' : List Instance) (i j : ℕ) : Type 0 where
  pub x : Instance
  pub y : Instance
  pub x_found : get_elem? is i ≡ some x
  pub y_found : get_elem? is j ≡ some y
  pub x_name : str_eq x.name name1 ≡ true
  pub y_name : str_eq y.name name2 ≡ true
  pub different : j ≢ i
  pub x_peer : get_elem? is' i ≡ some (record x { peer = some j })
  pub y_peer : get_elem? is' j ≡ some (record y { peer = some i })
  pub others : (n : ℕ) → n ≢ i → n ≢ j → get_elem? is' n ≡ get_elem? is n

linked :
    (name1 name2 : CString) (is : List Instance) (i j : ℕ)
    → First name1 name2 is (some i)
    → Second name1 name2 is (some j)
    → Bridged name1 name2 is (set_peer (set_peer is i j) j i) i j
linked name1 name2 is i j (x, x_found, x_name) (y, y_found, y_other, y_name) =
    let different : j ≢ i = λ same.
      ground
        (arith, x_name, y_other, ap name_or (sym y_found ∙ (ap (get_elem? is) same ∙ x_found))) in
    record {
      x = x;
      y = y;
      x_found = x_found;
      y_found = y_found;
      x_name = x_name;
      y_name = y_name;
      different = different;
      x_peer =
          set_peer_other (set_peer is i j) j i i (λ e. different (sym e))
          ∙ set_peer_same is i j x x_found;
      y_peer = set_peer_same (set_peer is i j) j i y (set_peer_other is i j j different ∙ y_found);
      others = λ n h h'. set_peer_other (set_peer is i j) j i n h' ∙ set_peer_other is i j n h;
    }

linked_context :
    (name1 name2 : CString) (afpc afpc' : Context) (peer1 peer2 : Option ℕ)
    → First name1 name2 afpc.instances peer1
    → Second name1 name2 afpc.instances peer2
    → link afpc peer1 peer2 ≡ (daq_success, afpc')
    → (afpc' ≡ record afpc { instances = afpc'.instances })
      × (i : ℕ) × (j : ℕ) × Bridged name1 name2 afpc.instances afpc'.instances i j
unfolding link
linked_context name1 name2 afpc afpc' none peer2 first second made = absurd (ground (arith, made))
linked_context name1 name2 afpc afpc' (some i) none first second made =
    absurd (ground (arith, made))
linked_context name1 name2 afpc afpc' (some i) (some j) first second made = (
  rw (sym (ap (λ r. r.1) made)) refl,
  i,
  j,
  rw (ap (λ r. r.1.instances) made) at (linked name1 name2 afpc.instances i j first second),
)

-- If `create_bridge` succeeds, two different instances with the given names have each other as peer,
-- and nothing else has changed: neither the other instances nor the other fields of the context.
pub create_bridge_lem :
    (afpc afpc' : Context) (name1 name2 : CString)
    → create_bridge afpc name1 name2 ≡ (daq_success, afpc')
    → (afpc' ≡ record afpc { instances = afpc'.instances })
      × (i : ℕ) × (j : ℕ) × Bridged name1 name2 afpc.instances afpc'.instances i j
unfolding create_bridge
create_bridge_lem afpc afpc' name1 name2 made =
    let found = find_peers name1 name2 0 afpc.instances (none, none) in
    let (first, second) =
      find_peers_lem name1 name2 afpc.instances afpc.instances 0 (none, none)
        (λ j. ap (get_elem? afpc.instances) (plus_zero j)) (tt, tt) in
    linked_context name1 name2 afpc afpc' found.0 found.1 first second made
