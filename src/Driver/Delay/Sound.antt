-- ===== src/Driver/Delay/Sound.antt =====
-- What stays so in com0com/sys/delay.c: no frame is counted before its time.
use com0com.Base.{
  ℕ, ◌+◌, ◌-◌, ◌*◌, ◌^◌, ◌≤◌, ◌<◌, Bool, true, false, not, ◌||◌, ◌==◌, leb, if◌then◌else◌,
  if_either, if_case, Option, some, none, ◌≡◌, ◌⊎◌, refl, sym, ap, subst, ◌∙◌, inl, inr, arith,
}
use native.Mathlib.Nat.{div-le_self, mul-le-mul_left, mul_comm, le_trans}
use com0com.Driver.Delay.{
  Delay, Stop, one, one_and_half, two, LineControl, quad, params_of, stop_decibits, get_write_limit,
  send_done, charge, begin_tick, end_tick, start_write_delay_timer, stop_write_delay_timer,
  set_write_delay, same_params,
}
use com0com.Driver.Delay.Pace.{carried-le, Fits, get_write_limit-carried, send_done-frames, due}

-- The parameters are those of a line, and a delay that runs has counted no frame before its time.
pub record Sound (top now sent : ℕ) (d : Delay) : Type 0 where
  pub rate : d.params.baud_rate ≤ top
  pub bits : d.params.decibits_per_frame * 1000000 < 2 ^ 32
  pub some_bits : (0 < d.params.decibits_per_frame) ⊎ (d.params.baud_rate ≡ 0)
  pub running :
      (d.started ≡ false)
      ⊎ ((0 < d.params.decibits_per_frame)
          × (d.start_time ≤ now)
          × (d.sent_frames ≤ due d now)
          × (sent ≤ d.sent_frames))

pub Sound-Fits :
    (top now sent : ℕ) (d : Delay)
    → now < 2 ^ 64
    → now * top < 2 ^ 64
    → Sound top now sent d
    → 0 < d.params.decibits_per_frame
    → d.start_time ≤ now
    → Fits now d
Sound-Fits top now sent d c p s b e =
    let u : (now - d.start_time) * d.params.baud_rate ≤ (now - d.start_time) * top =
      mul-le-mul_left (now - d.start_time) s.rate in
    let v : top * (now - d.start_time) ≤ top * now = mul-le-mul_left top (omega arith) in
    let w = mul_comm top (now - d.start_time) in
    let x = mul_comm top now in
    record {
      started_by = e;
      clock = c;
      product = omega (arith, u, v, w, x, p);
      some_bits = b;
      bits = s.bits;
    }

limit_or : Option ℕ → ℕ
limit_or none = 0
limit_or (some n) = n

-- Frames up to the limit do not come before their time.
counted :
    (top now sent n limit : ℕ) (d : Delay)
    → now < 2 ^ 64
    → now * top < 2 ^ 64
    → Sound top now sent d
    → get_write_limit now d ≡ some limit
    → n ≤ limit
    → (d.started ≡ false)
      ⊎ ((0 < d.params.decibits_per_frame)
          × (d.start_time ≤ now)
          × (d.sent_frames + n ≤ due d now)
          × (d.sent_frames + n < 2 ^ 64)
          × (sent + n ≤ d.sent_frames + n))
unfolding limit_or
counted top now sent n limit d c p s g h = elim s.running [
  | inl e ↦ inl e
  | inr (b, e, u, v) ↦
      (let f = Sound-Fits top now sent d c p s b e in
        let l : due d now - d.sent_frames ≡ limit =
          ap limit_or (sym (get_write_limit-carried now d f u) ∙ g) in
        let m : due d now ≤ (now - d.start_time) * d.params.baud_rate = div-le_self _ _ in
        inr (b, e, omega (arith, l, h, u), omega (arith, l, h, u, m, f.product), omega (arith, v)))
]

pub send_done-Sound :
    (top now sent n limit : ℕ) (d : Delay)
    → now < 2 ^ 64
    → now * top < 2 ^ 64
    → Sound top now sent d
    → get_write_limit now d ≡ some limit
    → n ≤ limit
    → Sound top now (sent + n) (send_done n d)
unfolding send_done
send_done-Sound top now sent n limit d c p s g h = record {
  rate = s.rate;
  bits = s.bits;
  some_bits = s.some_bits;
  running = elim (counted top now sent n limit d c p s g h) [
    | inl e ↦ inl e
    | inr (b, e, u, v, w) ↦
        let q = sym (send_done-frames n d v) in
        inr (b, e, subst (λ m. m ≤ due d now) q u, subst (λ m. sent + n ≤ m) q w)
  ];
}

pub charge-Sound :
    (top now sent n limit i : ℕ) (d : Delay)
    → now < 2 ^ 64
    → now * top < 2 ^ 64
    → Sound top now sent d
    → get_write_limit now d ≡ some limit
    → n ≤ limit
    → Sound top now (sent + n) (charge n (record d { idle_count = i }))
unfolding charge
charge-Sound top now sent n limit i d c p s g h = record {
  rate = s.rate;
  bits = s.bits;
  some_bits = s.some_bits;
  running = elim (counted top now sent n limit d c p s g h) [
    | inl e ↦ inl e
    | inr (b, e, u, v, w) ↦
        let q : d.sent_frames + n ≡ quad (d.sent_frames + n) = omega (arith, v) in
        inr (b, e, subst (λ m. m ≤ due d now) q u, subst (λ m. sent + n ≤ m) q w)
  ];
}

pub stop-Sound :
    (top now sent : ℕ) (d : Delay)
    → Sound top now sent d
    → Sound top now sent (stop_write_delay_timer d)
unfolding stop_write_delay_timer
stop-Sound top now sent d s = record {
  rate = s.rate;
  bits = s.bits;
  some_bits = s.some_bits;
  running = inl refl;
}

if_both :
    (P : ℕ → Delay → Type 0) (b : Bool) {m n : ℕ} {x y : Delay}
    → (b ≡ true → P m x)
    → (b ≡ false → P n y)
    → P (if b then m else n) (if b then x else y)
if_both P true p q = p refl
if_both P false p q = q refl

pub start-Sound :
    (top now sent : ℕ) (d : Delay)
    → Sound top now sent d
    → Sound top now (if d.started then sent else 0) (start_write_delay_timer now d)
unfolding start_write_delay_timer
start-Sound top now sent d s =
    if_both (Sound top now) d.started (λ e. s)
      (λ e.
        if_case (Sound top now 0) (d.params.baud_rate == 0)
          (λ z. record { rate = s.rate; bits = s.bits; some_bits = s.some_bits; running = inl e })
          (λ z.
            let b : 0 < d.params.decibits_per_frame = elim s.some_bits [
              | inl b ↦ b
              | inr y ↦ ground (arith, z, y)
            ] in
            record {
              rate = s.rate;
              bits = s.bits;
              some_bits = s.some_bits;
              running = inr (b, omega arith, omega arith, omega arith);
            }))

frame_bits :
    (baud : ℕ) (line : LineControl)
    → line.word_length < 256
    → (0 < (params_of baud line).decibits_per_frame)
      × ((params_of baud line).decibits_per_frame * 1000000 < 2 ^ 32)
unfolding params_of
frame_bits baud line w = go line.parity line.stop_bits
  where
    go :
        (b : Bool) (s : Stop)
        → (0 < (1 + line.word_length) * 10 + (if b then 10 else 0) + stop_decibits s)
          × (((1 + line.word_length) * 10 + (if b then 10 else 0) + stop_decibits s) * 1000000
              < 2 ^ 32)
    go true one = (omega arith, omega (arith, w))
    go true one_and_half = (omega arith, omega (arith, w))
    go true two = (omega arith, omega (arith, w))
    go false one = (omega arith, omega (arith, w))
    go false one_and_half = (omega arith, omega (arith, w))
    go false two = (omega arith, omega (arith, w))

pub set_write_delay-Sound :
    (top now sent baud : ℕ) (line : LineControl) (d : Delay)
    → baud ≤ top
    → line.word_length < 256
    → Sound top now sent d
    → Sound top now
        (if same_params d.params (params_of baud line) then sent else 0)
        (set_write_delay now baud line d)
unfolding set_write_delay params_of stop_write_delay_timer
set_write_delay-Sound top now sent baud line d t w s =
    let b = frame_bits baud line w in
    if_both (Sound top now) (same_params d.params (params_of baud line)) (λ e. s)
      (λ e.
        if_case (Sound top now 0) d.started
          (λ k.
            start-Sound top now 0
              (stop_write_delay_timer (record d { params = params_of baud line }))
              (record { rate = t; bits = b.1; some_bits = inl b.0; running = inl refl }))
          (λ k. record { rate = t; bits = b.1; some_bits = inl b.0; running = inl k }))

pub begin_tick-Sound :
    (top now sent : ℕ) (d : Delay) → Sound top now sent d → Sound top now sent (begin_tick d)
unfolding begin_tick
begin_tick-Sound top now sent d s =
    if_either (Sound top now sent) d.started
      (record { rate = s.rate; bits = s.bits; some_bits = s.some_bits; running = s.running }) s

abbrev pub AllSound : ℕ → ℕ → ℕ → Option Delay → Type 0
AllSound top now sent none = Unit
AllSound top now sent (some d) = Sound top now sent d

charged-Sound :
    (top now sent : ℕ) (d : Delay) (o : Option ℕ)
    → now < 2 ^ 64
    → now * top < 2 ^ 64
    → Sound top now sent d
    → get_write_limit now d ≡ o
    → AllSound top now sent
        (elim o [ none ↦ none | some limit ↦ some (charge limit (record d { idle_count = 0 })) ])
charged-Sound top now sent d none c p s g = tt
charged-Sound top now sent d (some limit) c p s g =
    let h = charge-Sound top now sent limit limit 0 d c p s g (omega arith) in
    record {
      rate = h.rate;
      bits = h.bits;
      some_bits = h.some_bits;
      running = elim h.running [
        | inl e ↦ inl e
        | inr (b, e, u, v) ↦ inr (b, e, u, omega (arith, v))
      ];
    }

pub end_tick-Sound :
    (top now sent : ℕ) (noisy : Bool) (d : Delay)
    → now < 2 ^ 64
    → now * top < 2 ^ 64
    → Sound top now sent d
    → AllSound top now sent (end_tick now noisy d)
unfolding end_tick
end_tick-Sound top now sent noisy d c p s =
    if_either (AllSound top now sent) (not d.started || leb d.idle_count 3) s (
      if_either (AllSound top now sent) noisy
        (charged-Sound top now sent d (get_write_limit now d) c p s refl)
        (stop-Sound top now sent d s))

pub later-Sound :
    (top now later sent : ℕ) (d : Delay)
    → now ≤ later
    → Sound top now sent d
    → Sound top later sent d
later-Sound top now later sent d e s = record {
  rate = s.rate;
  bits = s.bits;
  some_bits = s.some_bits;
  running = elim s.running [
    | inl f ↦ inl f
    | inr (b, f, u, v) ↦ inr (
      b,
      le_trans f e,
      le_trans u
          (carried-le d.params (now - d.start_time) (later - d.start_time) b (omega (arith, e))),
      v,
    )
  ];
}
