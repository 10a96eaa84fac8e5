-- ===== src/Examples/Delays.antt =====
-- The emulation of the baud rate: com0com/sys/delay.c.
use com0com.Base.{◌+◌, ◌*◌, ◌-◌, ◌≤◌, true, false, some, ◌≡◌, refl, arith}
use com0com.Driver.Delay.{
  Delay, LineControl, one, two, params_of, get_write_limit, send_done, start_write_delay_timer,
  stop_write_delay_timer, set_write_delay, end_tick,
}
use com0com.Driver.Delay.Frame.{frame_halves, excess, params_of-Excess}
use com0com.Driver.Delay.Pace.{due}
use com0com.Driver.Delay.Runs.{Runs, begins, waits, starts, sets, sends, fresh, Runs-Paced}

-- 9600 baud, eight bits, no parity, one stop bit.
abbrev line : LineControl
line = record { word_length = 8; parity = false; stop_bits = one }

-- The rate is set, the timer is started at 500, and 50 frames are sent a tenth of a second later.
abbrev set : Delay
set = set_write_delay 0 9600 line fresh

abbrev started : Delay
started = start_write_delay_timer 500 set

abbrev sent : Delay
sent = send_done 50 started

first_limit : get_write_limit 1000500 started ≡ some 96
unfolding get_write_limit start_write_delay_timer set_write_delay params_of
first_limit = refl

second_limit : get_write_limit 1000500 sent ≡ some 46
unfolding get_write_limit start_write_delay_timer set_write_delay params_of send_done
second_limit = refl

sent-Runs : Runs 115200 1000500 50 sent
unfolding set_write_delay
sent-Runs = sends 50 96 first_limit (omega arith) (
    waits 1000500 (omega arith)
      (starts (waits 500 (omega arith) (sets 9600 line (omega arith) (omega arith) begins))))

sent_started : sent.started ≡ true
unfolding start_write_delay_timer set_write_delay params_of send_done
sent_started = refl

Runs-Paced_example :
    (50 ≤ sent.sent_frames)
    × (sent.sent_frames ≤ due sent 1000500)
    × (get_write_limit 1000500 sent ≡ some (due sent 1000500 - sent.sent_frames))
Runs-Paced_example = Runs-Paced sent-Runs (omega arith) (omega arith) sent_started

-- Four ticks with nothing sent: the timer stops.
idle_stopped :
    end_tick 1000500 false (record sent { idle_count = 4 })
    ≡ some (stop_write_delay_timer (record sent { idle_count = 4 }))
unfolding end_tick start_write_delay_timer set_write_delay params_of send_done
    stop_write_delay_timer
idle_stopped = refl

-- Two stop bits.
abbrev slow : LineControl
slow = record { word_length = 8; parity = true; stop_bits = two }

params_of-Excess_example :
    (params_of 9600 slow).decibits_per_frame ≡ 5 * frame_halves slow + excess two
params_of-Excess_example = params_of-Excess 9600 slow
