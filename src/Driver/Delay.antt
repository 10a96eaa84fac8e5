-- ===== src/Driver/Delay.antt =====
-- The emulation of the baud rate, com0com/sys/delay.c: how many frames a port may send by now. The
-- interrupt time is a parameter. ULONGLONG and SIZE_T have 64 bits, ULONG and `long` 32. The handles of the timer
-- and of its DPC are left out; `timer` is what KeSetTimerEx got. Division by zero is `none`.
pub mod Pace
pub mod Frame
pub mod Runs
pub mod Sound
use com0com.Base.{
  leb, ◌||◌, ℕ, ◌+◌, ◌-◌, ◌*◌, ◌/◌, ◌%◌, ◌^◌, Bool, true, false, not, ◌&&◌, ◌==◌, ltb,
  if◌then◌else◌, Option, some, none, min,
}
use com0com.Hub.Word.{dword}

-- ULONGLONG.
abbrev pub quad : ℕ → ℕ
quad x = x % 2 ^ 64

pub record Params : Type 0 where
  pub decibits_per_frame : ℕ
  pub baud_rate : ℕ

pub record Delay : Type 0 where
  pub params : Params
  pub start_time : ℕ
  pub sent_frames : ℕ
  pub idle_count : ℕ
  pub started : Bool
  pub timer : Option (ℕ × ℕ)

-- NO_PARITY and the others; STOP_BIT_1 and any unknown value, STOP_BITS_1_5 and STOP_BITS_2.
pub data Stop : Type 0 where
  one one_and_half two : Stop

-- SERIAL_LINE_CONTROL.
pub record LineControl : Type 0 where
  pub word_length : ℕ
  pub parity : Bool
  pub stop_bits : Stop

abbrev pub stop_decibits : Stop → ℕ
stop_decibits one = 10
stop_decibits one_and_half = 15
stop_decibits two = 30

-- The parameters that `SetWriteDelay` works out.
unfoldable pub params_of : ℕ → LineControl → Params
params_of baud line = record {
  decibits_per_frame =
      (1 + line.word_length) * 10 + (if line.parity then 10 else 0) + stop_decibits line.stop_bits;
  baud_rate = baud;
}

abbrev frame_time : Params → ℕ
frame_time p =
    let t = dword (p.decibits_per_frame * 1000000) / p.baud_rate in if t == 0 then 1 else t

abbrev period : ℕ → ℕ
period t = if t / 10000 == 0 then 1 else t / 10000

unfoldable pub start_write_delay_timer : ℕ → Delay → Delay
start_write_delay_timer now d =
    if d.started then d else if d.params.baud_rate == 0 then d else record d {
      start_time = now;
      sent_frames = 0;
      idle_count = 0;
      timer = some (frame_time d.params, period (frame_time d.params));
      started = true;
    }

unfoldable pub stop_write_delay_timer : Delay → Delay
stop_write_delay_timer d = record d { started = false; timer = none }

abbrev pub same_params : Params → Params → Bool
same_params p q = p.baud_rate == q.baud_rate && p.decibits_per_frame == q.decibits_per_frame

unfoldable pub set_write_delay : ℕ → ℕ → LineControl → Delay → Delay
unfolding params_of start_write_delay_timer stop_write_delay_timer
set_write_delay now baud line d =
    let p = params_of baud line in
    let d' = record d { params = p } in
    if same_params d.params p
    then d
    else if d.started
    then start_write_delay_timer now (stop_write_delay_timer d')
    else d'

-- The frames that could have been sent since the start.
abbrev pub max_frames : ℕ → Delay → ℕ
max_frames now d =
    quad (quad (now + 2 ^ 64 - d.start_time) * d.params.baud_rate)
    / dword (d.params.decibits_per_frame * 1000000)

unfoldable pub get_write_limit : ℕ → Delay → Option ℕ
get_write_limit now d =
    if dword (d.params.decibits_per_frame * 1000000) == 0
    then none
    else if ltb (max_frames now d) d.sent_frames
    then some 0
    else some (max_frames now d - d.sent_frames)

-- What `ReadWrite` in io.c does with the frames that a transfer has sent.
unfoldable pub send_done : ℕ → Delay → Delay
send_done n d = record d {
  sent_frames = if n == 0 then d.sent_frames else quad (d.sent_frames + n);
  idle_count = if n == 0 then d.idle_count else 0;
}

-- `sentFrames += *pWriteLimit` in `ReadWrite`, for a line that is held, and in `WriteDelayRoutine`.
unfoldable pub charge : ℕ → Delay → Delay
charge n d = record d { sent_frames = quad (d.sent_frames + n) }

-- `WriteDelayRoutine` before its first call of `ReadWrite`.
unfoldable pub begin_tick : Delay → Delay
begin_tick d = if d.started then record d { idle_count = d.idle_count + 1 } else d

-- `WriteDelayRoutine` behind that call: after three ticks with nothing sent the line is idle. A noisy
-- line to an open port is charged with the time, and any other stops.
unfoldable pub end_tick : ℕ → Bool → Delay → Option Delay
unfolding get_write_limit charge stop_write_delay_timer
end_tick now noisy d =
    if not d.started || leb d.idle_count 3
    then some d
    else if noisy
    then elim (get_write_limit now d) [
      | none ↦ none
      | some limit ↦ some (charge limit (record d { idle_count = 0 }))
    ]
    else some (stop_write_delay_timer d)
