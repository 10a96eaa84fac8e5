-- ===== src/Hub/Route.antt =====
-- The routes of the hub: hub4com/route.cpp. A port is a number for its pointer; `PortMap`, a
-- multimap, is the list of its pairs in the order of their keys, where `find` gives the first pair of
-- a key and `insert` puts a pair behind the others of its key. An iterator is an index.
pub mod Laws
pub mod Flow
use com0com.Base.{
  ℕ, zero, suc, Bool, true, false, not, ◌&&◌, ◌||◌, List, [], ◌∷◌, length, ltb, ◌==◌, if◌then◌else◌,
  Option, none, some,
}

abbrev pub PortPair : Type 0
PortPair = ℕ × ℕ

abbrev pub PortMap : Type 0
PortMap = List PortPair

-- The loop of `FindPair`, from the first pair of the key on.
unfoldable pub find_from : PortMap → PortPair → Option ℕ
find_from [] pair = none
find_from (p ∷ map) pair =
    let rest = find_from map pair in
    if p.0 == pair.0
    then if p.1 == pair.1 then some 0 else elim rest [ none ↦ none | some i ↦ some (suc i) ]
    else none

-- `FindPair`.
unfoldable pub find_pair : PortMap → PortPair → Option ℕ
unfolding find_from
find_pair [] pair = none
find_pair (p ∷ map) pair =
    let rest = find_pair map pair in
    if p.0 == pair.0
    then find_from (p ∷ map) pair
    else elim rest [ none ↦ none | some i ↦ some (suc i) ]

unfoldable pub insert : PortPair → PortMap → PortMap
insert pair [] = pair ∷ []
insert pair (p ∷ map) =
    let rest = insert pair map in if ltb pair.0 p.0 then pair ∷ (p ∷ map) else p ∷ rest

unfoldable pub erase : PortMap → ℕ → PortMap
erase [] i = []
erase (p ∷ map) zero = map
erase (p ∷ map) (suc i) = p ∷ erase map i

-- The loop of `AddRoute` on a pair; `none` when the fuel is out.
unfoldable pub add_pair : ℕ → PortMap → PortPair → Bool → Option PortMap
unfolding find_pair
add_pair zero map pair no_route = none
add_pair (suc n) map pair no_route = elim (find_pair map pair) [
  | none ↦ some (if no_route then map else insert pair map)
  | some i ↦ elim no_route [ true ↦ add_pair n (erase map i) pair true | false ↦ some map ]
]

-- `AddRoute` on two ports.
unfoldable pub add_route : PortMap → ℕ → ℕ → Bool → Bool → Option PortMap
unfolding add_pair
add_route map from to no_route no_echo =
    if not (from == to) || not no_echo || no_route
    then add_pair (suc (length map)) map (from, to) no_route
    else some map

-- `AddRoute` of the pairs of another map.
unfoldable pub add_routes : PortMap → PortMap → Bool → Option PortMap
unfolding add_pair
add_routes map [] no_route = some map
add_routes map (p ∷ no_map) no_route = elim (add_pair (suc (length map)) map p no_route) [
  | none ↦ none
  | some m ↦ add_routes m no_map no_route
]

abbrev pub found : Option ℕ → Bool
found none = false
found (some i) = true

-- The loop of `SetFlowControlRoute`.
unfoldable pub flow_control_from : PortMap → PortMap → PortMap → Bool → PortMap
unfolding find_pair insert
flow_control_from flow_map data_map [] from_any = flow_map
flow_control_from flow_map data_map (p ∷ rest) from_any =
    let pair : PortPair = (p.1, p.0) in
    let adds =
      not (found (find_pair flow_map pair)) && (from_any || found (find_pair data_map pair)) in
    flow_control_from (if adds then insert pair flow_map else flow_map) data_map rest from_any

-- `SetFlowControlRoute`.
unfoldable pub set_flow_control_route : PortMap → Bool → PortMap
unfolding flow_control_from
set_flow_control_route data_map from_any = flow_control_from [] data_map data_map from_any
