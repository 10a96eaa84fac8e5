-- ===== src/Driver/Delay/Runs.antt =====
-- Runs of com0com/sys/delay.c: whatever `ReadWrite`, `WriteDelayRoutine` and `SetWriteDelay` do in turn.
use com0com.Base.{
  ℕ, ◌+◌, ◌-◌, ◌*◌, ◌^◌, ◌≤◌, ◌<◌, Bool, true, false, if◌then◌else◌, some, none, ◌≡◌, refl, subst,
  inl, inr, arith,
}
use native.Mathlib.Nat.{mul-le-mul_left, mul_comm}
use com0com.Driver.Delay.{
  Delay, LineControl, params_of, get_write_limit, send_done, charge, begin_tick, end_tick,
  start_write_delay_timer, stop_write_delay_timer, set_write_delay, same_params,
}
use com0com.Driver.Delay.Pace.{get_write_limit-carried, due}
use com0com.Driver.Delay.Sound.{
  Sound, AllSound, send_done-Sound, charge-Sound, stop-Sound, start-Sound, set_write_delay-Sound,
  begin_tick-Sound, end_tick-Sound, later-Sound, Sound-Fits,
}

-- The delay as it is allocated.
abbrev pub fresh : Delay
fresh = record {
  params = record { decibits_per_frame = 0; baud_rate = 0 };
  start_time = 0;
  sent_frames = 0;
  idle_count = 0;
  started = false;
  timer = none;
}

-- What a delay can be at a time, with baud rates up to `top`, and how many frames were sent, or charged for a
-- held line, since the count was started anew. `ReadWrite` gets a limit from GetWriteLimit and
-- uses it up or not, in one part or several.
pub data Runs (top : ℕ) : ℕ → ℕ → Delay → Type 0 where
  begins : Runs top 0 0 fresh
  waits :
      {now sent : ℕ} {d : Delay} (later : ℕ)
      → now ≤ later
      → Runs top now sent d
      → Runs top later sent d
  starts :
      {now sent : ℕ} {d : Delay}
      → Runs top now sent d
      → Runs top now (if d.started then sent else 0) (start_write_delay_timer now d)
  stops :
      {now sent : ℕ} {d : Delay}
      → Runs top now sent d
      → Runs top now sent (stop_write_delay_timer d)
  sets :
      {now sent : ℕ} {d : Delay} (baud : ℕ) (line : LineControl)
      → baud ≤ top
      → line.word_length < 256
      → Runs top now sent d
      → Runs top now
          (if same_params d.params (params_of baud line) then sent else 0)
          (set_write_delay now baud line d)
  sends :
      {now sent : ℕ} {d : Delay} (n limit : ℕ)
      → get_write_limit now d ≡ some limit
      → n ≤ limit
      → Runs top now sent d
      → Runs top now (sent + n) (send_done n d)
  charges :
      {now sent : ℕ} {d : Delay} (n limit : ℕ)
      → get_write_limit now d ≡ some limit
      → n ≤ limit
      → Runs top now sent d
      → Runs top now (sent + n) (charge n d)
  begins_tick : {now sent : ℕ} {d : Delay} → Runs top now sent d → Runs top now sent (begin_tick d)
  ends_tick :
      {now sent : ℕ} {d d' : Delay} (noisy : Bool)
      → end_tick now noisy d ≡ some d'
      → Runs top now sent d
      → Runs top now sent d'

Runs-Sound :
    {top now sent : ℕ} {d : Delay}
    → Runs top now sent d
    → now < 2 ^ 64
    → now * top < 2 ^ 64
    → Sound top now sent d
Runs-Sound begins c p = record {
  rate = omega arith;
  bits = omega arith;
  some_bits = inr refl;
  running = inl refl;
}
Runs-Sound {top = top} (waits {now = now} {d = d} later e r) c p =
    let m = mul-le-mul_left top e in
    let x = mul_comm top now in
    let y = mul_comm top later in
    later-Sound top now later _ d e (Runs-Sound r (omega (arith, e, c)) (omega (arith, m, x, y, p)))
Runs-Sound (starts r) c p = start-Sound _ _ _ _ (Runs-Sound r c p)
Runs-Sound (stops r) c p = stop-Sound _ _ _ _ (Runs-Sound r c p)
Runs-Sound (sets baud line t w r) c p =
    set_write_delay-Sound _ _ _ baud line _ t w (Runs-Sound r c p)
Runs-Sound (sends n limit g h r) c p = send_done-Sound _ _ _ n limit _ c p (Runs-Sound r c p) g h
Runs-Sound (charges {d = d} n limit g h r) c p =
    charge-Sound _ _ _ n limit d.idle_count d c p (Runs-Sound r c p) g h
Runs-Sound (begins_tick r) c p = begin_tick-Sound _ _ _ _ (Runs-Sound r c p)
Runs-Sound {top = top} {now = now} {sent = sent} (ends_tick {d = d} noisy e r) c p =
    subst (AllSound top now sent) e (end_tick-Sound top now sent noisy d c p (Runs-Sound r c p))

-- In whatever order the timer is started and stopped, the rate is set, frames are sent or charged up
-- to the limit and the timer ticks: while the timer runs, all the frames sent and charged since it was
-- started last are counted, those counted are no more than the line carries in that time, and
-- GetWriteLimit gives just those that are left. This is for baud rates up to `top`, and as long as
-- the interrupt time and its product with `top` stay below 2^64.
pub Runs-Paced :
    {top now sent : ℕ} {d : Delay}
    → Runs top now sent d
    → now < 2 ^ 64
    → now * top < 2 ^ 64
    → d.started ≡ true
    → (sent ≤ d.sent_frames)
      × (d.sent_frames ≤ due d now)
      × (get_write_limit now d ≡ some (due d now - d.sent_frames))
Runs-Paced {top = top} {now = now} {sent = sent} {d = d} r c p e =
    let s = Runs-Sound r c p in
    elim s.running [
      | inl f ↦ absurd (ground (arith, e, f))
      | inr (b, f, u, v) ↦
          (v, u, get_write_limit-carried now d (Sound-Fits top now sent d c p s b f) u)
    ]
