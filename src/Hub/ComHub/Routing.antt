-- ===== src/Hub/ComHub/Routing.antt =====
-- Where ComHub::OnRead (hub4com/comhub.cpp) sends what a port reads.
use com0com.Base.{
  ℕ, ◌+◌, ◌≤◌, List, [], ◌∷◌, ◌==◌, if◌then◌else◌, map, ◌≡◌, refl, arith, inl, inr, Bool-cases,
}
use com0com.Hub.Route.{PortMap}
use com0com.Hub.Route.Laws.{count, Sorted, SortedFrom, count-past}
use com0com.Hub.ComHub.{routes_from, routes_of}

abbrev pub count_port : ℕ → List ℕ → ℕ
count_port to [] = 0
count_port to (p ∷ ps) = (if p == to then 1 else 0) + count_port to ps

routes_from-count :
    (from to k : ℕ) (map : PortMap)
    → from ≤ k
    → SortedFrom k map
    → count_port to (routes_from from map) ≡ count map (from, to)
unfolding routes_from
routes_from-count from to k [] h s = refl
routes_from-count from to k (p ∷ map) h s = elim (Bool-cases (p.0 == from)) [
  | inl e ↦ ground (arith, s.0, routes_from-count from to p.0 map (omega (arith, s.0)) s.1)
  | inr e ↦ ground (arith, s.0, count-past p.0 map (from, to) s.1 (ground (arith, s.0)))
]

routes_of-count_from :
    (from to k : ℕ) (map : PortMap)
    → SortedFrom k map
    → count_port to (routes_of from map) ≡ count map (from, to)
unfolding routes_of
routes_of-count_from from to k [] s = refl
routes_of-count_from from to k (p ∷ map) s = elim (Bool-cases (p.0 == from)) [
  | inl e ↦
      let o : from ≤ p.0 = ground arith in
      ground (arith, routes_from-count from to p.0 (p ∷ map) o (omega arith, s.1))
  | inr e ↦ ground (arith, routes_of-count_from from to p.0 map s.1)
]

-- A port gets what another reads as often as the routes, in the order of their keys,
-- hold the pair of the two.
pub routes_of-count :
    (from to : ℕ) (map : PortMap)
    → Sorted map
    → count_port to (routes_of from map) ≡ count map (from, to)
routes_of-count from to map s = routes_of-count_from from to 0 map s
