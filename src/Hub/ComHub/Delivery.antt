-- ===== src/Hub/ComHub/Delivery.antt =====
-- Whom ComHub::OnRead (hub4com/comhub.cpp) reaches, where the filters leave alone what goes through.
use com0com.Base.{
  ℕ, ◌+◌, Bool, true, false, List, [], ◌∷◌, ◌++◌, ◌==◌, nonzero, if◌then◌else◌, Option, none, some,
  map, bit_and, ◌≡◌, ◌⊎◌, refl, sym, ap, subst, ◌∙◌, inl, inr, Bool-cases,
}
use com0com.Hub.Msg.{Msg, clone, clone_one, is_buf}
use com0com.Hub.Route.{PortMap}
use com0com.Hub.Route.Laws.{count, Sorted}
use com0com.Hub.Filters.{
  Result, Instance, succeed, in_if, out_if, applies, in_filters, out_loop, out_filters,
}
use com0com.Hub.Filters.Order.{out_filters-append}
use com0com.Hub.ComHub.{
  ComHub, Reads, Written, write_all, routes_of, send_to, send_all, read_filters, route_map, on_read,
}
use com0com.Hub.ComHub.Routing.{count_port, routes_of-count}

-- How many messages are written to a port.
abbrev pub written_to : ℕ → List Written → ℕ
written_to to [] = 0
written_to to (x ∷ xs) = (if x.port == to then 1 else 0) + written_to to xs

-- A copy has the type of the message, and its bytes or, where it has none, all of its union.
abbrev pub Copy : Msg → Msg → Type 0
Copy m n =
    (n.type ≡ m.type) × ((is_buf m ≡ false) ⊎ (n.buf ≡ m.buf)) × ((is_buf m ≡ true) ⊎ (n ≡ m))

abbrev pub AllCopies : Msg → List Written → Type 0
AllCopies m [] = Unit
AllCopies m (x ∷ xs) = Copy m x.msg × AllCopies m xs

clone_one-Copy : (m : Msg) → Copy m (clone_one m)
unfolding clone_one
clone_one-Copy m = elim (Bool-cases (is_buf m)) [
  | inl e ↦ rw (e) (refl, inr refl, inl refl)
  | inr e ↦ rw (e) (refl, inl refl, inr refl)
]

abbrev copies : Msg → List ℕ → List Written
copies m = map (λ (to : ℕ). record { port = to; msg = clone_one m })

copies-AllCopies : (m : Msg) (tos : List ℕ) → AllCopies m (copies m tos)
copies-AllCopies m [] = tt
copies-AllCopies m (to ∷ tos) = (clone_one-Copy m, copies-AllCopies m tos)

written_to-copies :
    (to : ℕ) (m : Msg) (tos : List ℕ) → written_to to (copies m tos) ≡ count_port to tos
written_to-copies to m [] = refl
written_to-copies to m (p ∷ ps) =
    ap (λ n. (if p == to then 1 else 0) + n) (written_to-copies to m ps)

chosen :
    (from to : ℕ) (m : Msg) (flow plain : PortMap)
    → Sorted flow
    → Sorted plain
    → count_port to (routes_of from (if nonzero (bit_and m.type 0x8000) then flow else plain))
      ≡ (if nonzero (bit_and m.type 0x8000) then count flow (from, to) else count plain (from, to))
chosen from to m flow plain sf sd = elim (Bool-cases (nonzero (bit_and m.type 0x8000))) [
  | inl e ↦ rw (e) (routes_of-count from to flow sf)
  | inr e ↦ rw (e) (routes_of-count from to plain sd)
]

module _ {W : Type 0} where
  either_way :
      (b : Bool) (ms : List Msg) (w : W)
      → (let r : Result W = if b then succeed ms w else succeed ms w in
          if r.ok then succeed r.msgs r.world else r)
        ≡ succeed ms w
  either_way true ms w = refl
  either_way false ms w = refl

  -- Instances without methods.
  abbrev pub Passive : List (Instance W) → Type 0
  Passive [] = Unit
  Passive (i ∷ is) = (i.in_method ≡ none) × (i.out_method ≡ none) × Passive is

  abbrev pub PassiveHub : Option (ℕ → List (Instance W)) → Type 0
  PassiveHub none = Unit
  PassiveHub (some f) = (p : ℕ) → Passive (f p)

  in_filters-Passive :
      (from : ℕ) (is : List (Instance W)) (ms : List Msg) (w : W)
      → Passive is
      → in_filters from is ms w ≡ succeed ms w
  unfolding in_filters in_if out_if
  in_filters-Passive from [] ms w p = refl
  in_filters-Passive from (i ∷ is) ms w p = rw (p.0, p.1, in_filters-Passive from is ms w p.2) refl

  one-Passive :
      (from : ℕ) (i : Instance W) (ms : List Msg) (w : W)
      → i.out_method ≡ none
      → out_filters from (i ∷ []) ms w ≡ succeed ms w
  unfolding out_filters out_loop out_if
  one-Passive from i ms w e =
      rw (e) (either_way (applies (record i { out_method = none }) from) ms w)

  out_filters-Passive :
      (from : ℕ) (is : List (Instance W)) (ms : List Msg) (w : W)
      → Passive is
      → out_filters from is ms w ≡ succeed ms w
  unfolding out_filters out_loop
  out_filters-Passive from [] ms w p = refl
  out_filters-Passive from (i ∷ is) ms w p =
      out_filters-append from (i ∷ []) is ms w
      ∙ rw (out_filters-Passive from is ms w p.2) (one-Passive from i ms w p.1)

  send_to-Passive :
      (hub : ComHub W) (from : ℕ) (m : Msg) (to : ℕ) (w : W) (fs : Option (ℕ → List (Instance W)))
      → hub.filters ≡ fs
      → PassiveHub fs
      → send_to hub from (m ∷ []) to w ≡ record { world = w; written = copies m (to ∷ []) }
  unfolding send_to clone
  send_to-Passive hub from m to w none e p = rw (e) refl
  send_to-Passive hub from m to w (some f) e p =
      rw (e, out_filters-Passive from (f to) (clone_one m ∷ []) w (p to)) refl

  read_filters-Passive :
      (hub : ComHub W) (from : ℕ) (m : Msg) (w : W) (fs : Option (ℕ → List (Instance W)))
      → hub.filters ≡ fs
      → PassiveHub fs
      → read_filters hub from m w ≡ succeed (m ∷ []) w
  unfolding read_filters
  read_filters-Passive hub from m w none e p = rw (e) refl
  read_filters-Passive hub from m w (some f) e p =
      rw (e, in_filters-Passive from (f from) (m ∷ []) w (p from)) refl

  send_all-Passive :
      (hub : ComHub W) (from : ℕ) (m : Msg) (tos : List ℕ) (w : W)
      → PassiveHub hub.filters
      → send_all hub from (m ∷ []) tos w ≡ record { world = w; written = copies m tos }
  unfolding send_all
  send_all-Passive hub from m [] w p = refl
  send_all-Passive hub from m (to ∷ tos) w p =
      ap
        (λ (r : Reads W). record {
          world = (send_all hub from (m ∷ []) tos r.world).world;
          written = r.written ++ (send_all hub from (m ∷ []) tos r.world).written;
        })
        (send_to-Passive hub from m to w hub.filters refl p)
      ∙ ap (λ (r : Reads W). record { world = r.world; written = copies m (to ∷ []) ++ r.written })
          (send_all-Passive hub from m tos w p)

  abbrev map_for : ComHub W → Msg → PortMap
  map_for hub m =
      if nonzero (bit_and m.type 0x8000) then hub.route_flow_control_map else hub.route_data_map

  on_read-copies :
      (hub : ComHub W) (from : ℕ) (m : Msg) (w : W)
      → PassiveHub hub.filters
      → (on_read hub from m w).written ≡ copies m (routes_of from (map_for hub m))
  unfolding on_read
  on_read-copies hub from m w p =
      ap
        (λ (r : Result W).
          write_all from r.echo
          ++ (send_all hub from r.msgs (routes_of from (route_map hub r.msgs)) r.world).written)
        (read_filters-Passive hub from m w hub.filters refl p)
      ∙ ap (λ (r : Reads W). r.written)
          (send_all-Passive hub from m (routes_of from (route_map hub (m ∷ []))) w p)

  -- Without filters, or with filters that have no methods: of what a port reads, each port is
  -- written one message for each route from the one to the other, in the map of flow control or of data as
  -- the type of the message says, and all that is written are copies of the message. The
  -- maps are in the order of their keys.
  pub on_read-Delivers :
      (hub : ComHub W) (from to : ℕ) (m : Msg) (w : W)
      → PassiveHub hub.filters
      → Sorted hub.route_flow_control_map
      → Sorted hub.route_data_map
      → (written_to to (on_read hub from m w).written ≡ (
          if nonzero (bit_and m.type 0x8000)
          then count hub.route_flow_control_map (from, to)
          else count hub.route_data_map (from, to)))
        × AllCopies m (on_read hub from m w).written
  on_read-Delivers hub from to m w p sf sd =
      let e = on_read-copies hub from m w p in
      (
        ap (written_to to) e
            ∙ written_to-copies to m (routes_of from (map_for hub m))
            ∙ chosen from to m hub.route_flow_control_map hub.route_data_map sf sd,
        subst (AllCopies m) (sym e) (copies-AllCopies m (routes_of from (map_for hub m))),
      )
