-- ===== src/Hub/ComHub.antt =====
-- ComHub::OnRead of hub4com/comhub.cpp: what a port reads goes through its filters, their echo is
-- written back to it, and a copy goes through the filters of every port that a route leads to.
-- `Port::Write` is kept as the list of what was written, in order. A warning is only printed.
pub mod Delivery
pub mod Routing
use com0com.Base.{
  ℕ, Bool, true, false, not, List, [], ◌∷◌, ◌++◌, ◌==◌, nonzero, if◌then◌else◌, Option, none, some,
  map, bit_and,
}
use com0com.Hub.Msg.{Msg, clone}
use com0com.Hub.Route.{PortPair, PortMap}
use com0com.Hub.Filters.{Result, Instance, succeed, in_filters, out_filters}

-- HUB_MSG_ROUTE_FLOW_CONTROL.
abbrev pub route_flow_control : ℕ
route_flow_control = 0x8000

pub record Written : Type 0 where
  pub port : ℕ
  pub msg : Msg

-- `filters` gives the instances of a port; `none` stands for a hub without filters.
pub record ComHub (W : Type 0) : Type 0 where
  pub filters : Option (ℕ → List (Instance W))
  pub route_data_map : PortMap
  pub route_flow_control_map : PortMap

pub record Reads (W : Type 0) : Type 0 where
  pub world : W
  pub written : List Written

abbrev pub write_all : ℕ → List Msg → List Written
write_all port = map (λ (m : Msg). record { port = port; msg = m })

-- The pairs from `routeMap.find(pFromPort)` on, up to the first of another port.
unfoldable pub routes_from : ℕ → PortMap → List ℕ
routes_from from [] = []
routes_from from (p ∷ ps) = let rest = routes_from from ps in if p.0 == from then p.1 ∷ rest else []

unfoldable pub routes_of : ℕ → PortMap → List ℕ
unfolding routes_from
routes_of from [] = []
routes_of from (p ∷ ps) =
    let rest = routes_of from ps in if p.0 == from then routes_from from (p ∷ ps) else rest

module _ {W : Type 0} where
  -- The message for one port: FALSE of `OutMethod` drops it.
  unfoldable pub send_to : ComHub W → ℕ → List Msg → ℕ → W → Reads W
  unfolding out_filters
  send_to hub from ms to w = elim hub.filters [
    | none ↦ record { world = w; written = write_all to (clone ms) }
    | some f ↦
        let r : Result W = out_filters from (f to) (clone ms) w in
        record { world = r.world; written = if r.ok then write_all to r.msgs else [] }
  ]

  -- The loop over the routes.
  unfoldable pub send_all : ComHub W → ℕ → List Msg → List ℕ → W → Reads W
  unfolding send_to
  send_all hub from ms [] w = record { world = w; written = [] }
  send_all hub from ms (to ∷ tos) w =
      let r : Reads W = send_to hub from ms to w in
      let rest : Reads W = send_all hub from ms tos r.world in
      record { world = rest.world; written = r.written ++ rest.written }

  -- `InMethod` of the port's filters; FALSE leaves no echo.
  unfoldable pub read_filters : ComHub W → ℕ → Msg → W → Result W
  unfolding in_filters
  read_filters hub from m w = elim hub.filters [
    | none ↦ succeed (m ∷ []) w
    | some f ↦
        let r : Result W = in_filters from (f from) (m ∷ []) w in
        record r { echo = if r.ok then r.echo else [] }
  ]

  -- The map is chosen by the type that the first message has after the filters.
  abbrev pub route_map : ComHub W → List Msg → PortMap
  route_map hub [] = hub.route_data_map
  route_map hub (m ∷ ms) =
      if nonzero (bit_and m.type route_flow_control)
      then hub.route_flow_control_map
      else hub.route_data_map

  -- `OnRead`: `pMsg` is routed also where a filter has returned FALSE.
  unfoldable pub on_read : ComHub W → ℕ → Msg → W → Reads W
  unfolding read_filters send_all
  on_read hub from m w =
      let r : Result W = read_filters hub from m w in
      let sent : Reads W =
        send_all hub from r.msgs (routes_of from (route_map hub r.msgs)) r.world in
      record { world = sent.world; written = write_all from r.echo ++ sent.written }
