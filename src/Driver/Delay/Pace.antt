-- ===== src/Driver/Delay/Pace.antt =====
-- The arithmetic of `GetWriteLimit` in com0com/sys/delay.c.
use com0com.Base.{
  ℕ, ◌+◌, ◌-◌, ◌*◌, ◌/◌, ◌^◌, ◌≤◌, ◌<◌, false, ◌==◌, ltb, some, ◌≡◌, refl, subst, Bool-cases, inl,
  inr, arith,
}
use native.Mathlib.Nat.{mul_comm, le_trans, le-div_iff_mul-le, div-mul-le_self, mul-le-mul_left}
use com0com.Hub.Word.{dword}
use com0com.Driver.Delay.{Params, Delay, quad, max_frames, get_write_limit, send_done}

-- The frames that a line with these parameters carries in so many intervals of 100 nanoseconds.
abbrev pub carried : Params → ℕ → ℕ
carried p t = t * p.baud_rate / (p.decibits_per_frame * 1000000)

pub carried-le :
    (p : Params) (a b : ℕ) → 0 < p.decibits_per_frame → a ≤ b → carried p a ≤ carried p b
carried-le p a b z e =
    let q : a * p.baud_rate ≤ b * p.baud_rate =
      subst (λ x. x ≤ b * p.baud_rate) (mul_comm p.baud_rate a)
        (subst (λ x. p.baud_rate * a ≤ x) (mul_comm p.baud_rate b)
          (mul-le-mul_left p.baud_rate e)) in
    (le-div_iff_mul-le (omega (arith, z))).1
      (le_trans (div-mul-le_self (a * p.baud_rate) (p.decibits_per_frame * 1000000)) q)

max_frames-carried :
    (now : ℕ) (d : Delay)
    → d.start_time ≤ now
    → now < 2 ^ 64
    → (now - d.start_time) * d.params.baud_rate < 2 ^ 64
    → d.params.decibits_per_frame * 1000000 < 2 ^ 32
    → max_frames now d ≡ carried d.params (now - d.start_time)
max_frames-carried now d a b c e =
    let k : quad (now + 2 ^ 64 - d.start_time) ≡ now - d.start_time = omega (arith, a, b) in
    let l : quad ((now - d.start_time) * d.params.baud_rate)
        ≡ (now - d.start_time) * d.params.baud_rate =
      omega (arith, c) in
    let m : dword (d.params.decibits_per_frame * 1000000) ≡ d.params.decibits_per_frame * 1000000 =
      omega (arith, e) in
    rw (k, l, m) refl

-- The clock and the rate do not leave their types, and the frames sent are those of the line at most.
pub record Fits (now : ℕ) (d : Delay) : Type 0 where
  pub started_by : d.start_time ≤ now
  pub clock : now < 2 ^ 64
  pub product : (now - d.start_time) * d.params.baud_rate < 2 ^ 64
  pub some_bits : 0 < d.params.decibits_per_frame
  pub bits : d.params.decibits_per_frame * 1000000 < 2 ^ 32

pub get_write_limit-carried :
    (now : ℕ) (d : Delay)
    → Fits now d
    → d.sent_frames ≤ carried d.params (now - d.start_time)
    → get_write_limit now d ≡ some (carried d.params (now - d.start_time) - d.sent_frames)
unfolding get_write_limit
get_write_limit-carried now d f u =
    let m : dword (d.params.decibits_per_frame * 1000000) ≡ d.params.decibits_per_frame * 1000000 =
      omega (arith, f.bits) in
    let z : (dword (d.params.decibits_per_frame * 1000000) == 0) ≡ false = ground arith in
    let l = max_frames-carried now d f.started_by f.clock f.product f.bits in
    let t : ltb (carried d.params (now - d.start_time)) d.sent_frames ≡ false = ground arith in
    rw (z, l, t) refl

pub send_done-frames :
    (n : ℕ) (d : Delay)
    → d.sent_frames + n < 2 ^ 64
    → (send_done n d).sent_frames ≡ d.sent_frames + n
unfolding send_done
send_done-frames n d e = elim (Bool-cases (n == 0)) [
  | inl k ↦ rw (k) (ground arith)
  | inr k ↦ rw (k) (omega (arith, e))
]

-- The frames by a time since the count was started, on this line.
abbrev pub due : Delay → ℕ → ℕ
due d t = carried d.params (t - d.start_time)
