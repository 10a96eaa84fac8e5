-- ===== src/Examples/Routes.antt =====
-- The hub: hub4com/route.cpp, filters.cpp and comhub.cpp.
use com0com.Base.{ℕ, ◌+◌, true, false, [], ◌∷◌, ◌≡◌, refl, arith, none, some}
use com0com.Hub.Msg
use com0com.Hub.Msg.{Msg, new}
use com0com.Hub.Route.{PortMap, add_route}
use com0com.Hub.Route.Laws.{Sorted, Routes, added, add_route-add}
use com0com.Hub.Filters.{Instance, succeed, in_filters, OutMethod, InMethod}
use com0com.Hub.Filters.Order.{echo_through, in_filters-append}
use com0com.Hub.ComHub.{ComHub, on_read}
use com0com.Hub.ComHub.Delivery.{written_to, AllCopies, on_read-Delivers}

-- Port 1 to itself and to port 2, which answers.
abbrev routes : PortMap
routes = (1, 1) ∷ (1, 2) ∷ (2, 1) ∷ []

routes-Sorted : Sorted routes
routes-Sorted = (omega arith, (omega arith, (omega arith, tt)))

add_route-add_example : Routes (λ r. added (1, 3) routes r) (add_route routes 1 3 false true)
add_route-add_example = add_route-add routes 1 3 true routes-Sorted

abbrev hub : ComHub ℕ
hub = record { filters = none; route_data_map = routes; route_flow_control_map = [] }

abbrev message : Msg
message = record new { type = Msg.line_data; buf = 65 ∷ [] }

on_read-Delivers_example :
    (written_to 2 (on_read hub 1 message 0).written ≡ 1)
    × AllCopies message (on_read hub 1 message 0).written
on_read-Delivers_example = on_read-Delivers hub 1 2 message 0 tt tt routes-Sorted

-- A filter that counts the messages it sees, one that answers each, and one that refuses them.
abbrev counts : OutMethod ℕ
counts from m n = succeed ((record m { val = n }) ∷ []) (n + 1)

abbrev answers : InMethod ℕ
answers m n = record { ok = true; world = n; msgs = m ∷ []; echo = message ∷ m ∷ [] }

abbrev counting : Instance ℕ
counting = record { in_method = none; out_method = some counts; src_ports = none }

abbrev answering : Instance ℕ
answering = record { in_method = some answers; out_method = none; src_ports = none }

in_filters-append_example :
    in_filters 1 (counting ∷ answering ∷ []) (message ∷ []) 5
    ≡ echo_through 1 (counting ∷ []) (in_filters 1 (answering ∷ []) (message ∷ []) 5)
in_filters-append_example =
    in_filters-append 1 (counting ∷ []) (answering ∷ []) (message ∷ []) 5 (refl, refl, tt)
