-- ===== src/Examples/Connections.antt =====
-- The connections that the pin2con filter reports: hub4com/plugins/pin2con/filter.cpp.
use com0com.Base.{ℕ, true, false, List, ◌∷◌, [], some, ◌≡◌, refl}
use com0com.Hub.Msg
use com0com.Hub.Msg.{Msg, new}
use com0com.Hub.Memory.{Memory}
use com0com.Hub.Chain.{insert_val}
use com0com.Plugins.Pin2Con.{
  Filter, new_state, in_method, insert_connect_state, insert_last, on_tick,
}
use com0com.Plugins.Pin2Con.Connection.{reports, alternate, up_to_date}
use com0com.Plugins.Pin2Con.Run.{run, level_after, run-Follows}

-- CTS, with a delay of half a second.
abbrev filter : Filter
filter = record { pin = 0x10; negative = false; delay_disconnect = 500 }

abbrev no_cells : Memory
no_cells a = 0

abbrev cts_on : Msg × (ℕ × ℕ)
cts_on = (record new { type = Msg.modem_status; val = 0x100010 }, (0, 0))

abbrev cts_off : Msg × (ℕ × ℕ)
cts_off = (record new { type = Msg.modem_status; val = 0x100000 }, (0, 0))

-- TICK for the instance 1 and its timer 7.
abbrev tick : Msg × (ℕ × ℕ)
tick = (record new { type = 24 }, (1, 7))

abbrev glitch : List (Msg × (ℕ × ℕ))
glitch = cts_on ∷ cts_off ∷ cts_on ∷ cts_off ∷ tick ∷ []

-- The first fall is too short to be reported.
glitch_reported : reports (run filter (new_state 1 6) no_cells glitch).1 ≡ true ∷ false ∷ []
unfolding in_method insert_connect_state insert_last on_tick insert_val
glitch_reported = refl

run-Follows_example :
    (alternate false (reports (run filter (new_state 1 6) no_cells glitch).1)
      ≡ some (run filter (new_state 1 6) no_cells glitch).0.connect)
    × (up_to_date filter (run filter (new_state 1 6) no_cells glitch).0 ≡ true)
    × ((run filter (new_state 1 6) no_cells glitch).0.last_connect
        ≡ level_after filter false glitch)
run-Follows_example = run-Follows filter (new_state 1 6) no_cells glitch refl
