-- ===== src/Hub/Route/Flow.antt =====
-- SetFlowControlRoute of hub4com/route.cpp: the flow control map of a data map.
use com0com.Base.{
  ℕ, Bool, not, ◌&&◌, ◌||◌, [], ◌∷◌, if◌then◌else◌, ◌≡◌, refl, ◌∙◌, arith, inl, inr, Bool-cases,
}
use com0com.Hub.Route.{PortPair, PortMap, insert, flow_control_from, set_flow_control_route}
use com0com.Hub.Route.Laws.{
  same, count, has, Sorted, found-find_pair, count-insert, Sorted-insert, has_same,
}

abbrev flow_count : PortMap → PortMap → PortMap → Bool → PortPair → ℕ
flow_count flow_map data_map rest from_any r =
    if has rest (r.1, r.0) && (from_any || has data_map r) && not (has flow_map r)
    then 1
    else count flow_map r

abbrev with_reverse : PortMap → PortMap → PortPair → Bool → PortMap
with_reverse flow_map data_map p from_any =
    if not (has flow_map (p.1, p.0)) && (from_any || has data_map (p.1, p.0))
    then insert (p.1, p.0) flow_map
    else flow_map

Sorted-with_reverse :
    (flow_map data_map : PortMap) (p : PortPair) (from_any : Bool)
    → Sorted flow_map
    → Sorted (with_reverse flow_map data_map p from_any)
Sorted-with_reverse flow_map data_map p from_any s =
    elim (Bool-cases (not (has flow_map (p.1, p.0)) && (from_any || has data_map (p.1, p.0)))) [
      | inl e ↦ rw e (Sorted-insert 0 (p.1, p.0) flow_map (omega arith) s)
      | inr e ↦ rw e s
    ]

flow_count-cons :
    (p r : PortPair) (flow_map data_map rest : PortMap) (from_any : Bool)
    → flow_count (with_reverse flow_map data_map p from_any) data_map rest from_any r
      ≡ flow_count flow_map data_map (p ∷ rest) from_any r
flow_count-cons p r flow_map data_map rest from_any = elim (Bool-cases (same (p.1, p.0) r)) [
  | inl e ↦
      let c = has_same flow_map (p.1, p.0) r e in
      let d = has_same data_map (p.1, p.0) r e in
      ground (arith, c, d, count-insert (p.1, p.0) r flow_map)
  | inr e ↦ ground (arith, count-insert (p.1, p.0) r flow_map)
]

flow_control_from-count :
    (flow_map data_map rest : PortMap) (from_any : Bool)
    → Sorted flow_map
    → Sorted data_map
    → Sorted (flow_control_from flow_map data_map rest from_any)
      × ((r : PortPair)
          → count (flow_control_from flow_map data_map rest from_any) r
            ≡ flow_count flow_map data_map rest from_any r)
unfolding flow_control_from
flow_control_from-count flow_map data_map [] from_any s t = (s, λ r. refl)
flow_control_from-count flow_map data_map (p ∷ rest) from_any s t =
    let f = found-find_pair 0 flow_map (p.1, p.0) s in
    let d = found-find_pair 0 data_map (p.1, p.0) t in
    let ih =
      flow_control_from-count (with_reverse flow_map data_map p from_any) data_map rest from_any
        (Sorted-with_reverse flow_map data_map p from_any s) t in
    rw (f, d) (ih.0, λ r. ih.1 r ∙ flow_count-cons p r flow_map data_map rest from_any)

-- The flow control map holds the reverse of each data route: of every one, or only of those whose
-- reverse is a data route itself; each once, and nothing else.
pub set_flow_control_route-count :
    (data_map : PortMap) (from_any : Bool) (r : PortPair)
    → Sorted data_map
    → count (set_flow_control_route data_map from_any) r
      ≡ (if has data_map (r.1, r.0) && (from_any || has data_map r) then 1 else 0)
unfolding set_flow_control_route
set_flow_control_route-count data_map from_any r t =
    (flow_control_from-count [] data_map data_map from_any tt t).1 r ∙ ground arith
