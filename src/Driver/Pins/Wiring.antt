-- ===== src/Driver/Pins/Wiring.antt =====
-- What the pins of com0com/sys/pinouts.c show: the status of a port is always that of the sources
-- that its pins are wired to.
use com0com.Base.{Bool, true, false, not, ◌&&◌, ◌||◌, if◌then◌else◌, ◌≡◌, refl, ap, ap₂, ◌∙◌, arith}
use com0com.Driver.Pins.{
  Out, rts, dtr, out1, out2, open_pin, Msb, Port, Pair, same, same_out, masked, any_out, mask_of,
  bits_of, set_modem_status, set_modem_control, Source, on, pin,
}
use std.Path.{fun_ext}

-- The level of a source, from the pins of the local and of the remote port.
abbrev pub level : (Out → Bool) → (Out → Bool) → Source × Bool → Bool
level near far (on, neg) = not neg
level near far (pin true o, neg) = not (same neg (far o))
level near far (pin false o, neg) = not (same neg (near o))

-- Whether a source is this pin of this side, with this sign.
abbrev pub taps : Source × Bool → Bool → Out → Bool → Bool
taps (on, neg) side o sign = false
taps (pin far o', neg) side o sign = same_out o' o && same far side && same neg sign

-- One flag of the status, when the pins of one side go from `old` to `new`.
abbrev updated : Bool → (Out → Bool) → (Out → Bool) → Source × Bool → Bool → Bool
updated side old new w s =
    let changed = λ (o : Out). not (same (old o) (new o)) in
    if any_out (λ o. changed o && (taps w side o false || taps w side o true))
    then any_out (λ o. changed o && (if new o then taps w side o false else taps w side o true))
    else s

pub and_false : (c : Bool) → (c && false) ≡ false
and_false true = refl
and_false false = refl

-- A sum over the pins with one pin in it, or none.
any_only :
    (o : Out) (f : Out → Bool)
    → ((o' : Out) → same_out o o' ≡ false → f o' ≡ false)
    → any_out f ≡ f o
any_only rts f h = rw (h dtr refl, h out1 refl, h out2 refl, h open_pin refl) (ground arith)
any_only dtr f h = rw (h rts refl, h out1 refl, h out2 refl, h open_pin refl) (ground arith)
any_only out1 f h = rw (h rts refl, h dtr refl, h out2 refl, h open_pin refl) (ground arith)
any_only out2 f h = rw (h rts refl, h dtr refl, h out1 refl, h open_pin refl) (ground arith)
any_only open_pin f h = rw (h rts refl, h dtr refl, h out1 refl, h out2 refl) refl

any_none : (f : Out → Bool) → ((o : Out) → f o ≡ false) → any_out f ≡ false
any_none f h = any_only rts f (λ o e. h o) ∙ h rts

same_out_refl : (o : Out) → same_out o o ≡ true
same_out_refl rts = refl
same_out_refl dtr = refl
same_out_refl out1 = refl
same_out_refl out2 = refl
same_out_refl open_pin = refl

same_refl : (b : Bool) → same b b ≡ true
same_refl true = refl
same_refl false = refl

updated_none :
    (side : Bool) (old new : Out → Bool) (w : Source × Bool) (s : Bool)
    → ((o : Out) (sign : Bool) → taps w side o sign ≡ false)
    → updated side old new w s ≡ s
updated_none side old new w s h =
    let changed = λ (o : Out). not (same (old o) (new o)) in
    let none_on : any_out (λ o. changed o && (taps w side o false || taps w side o true)) ≡ false =
      any_none (λ o. changed o && (taps w side o false || taps w side o true))
        (λ o. ap₂ (λ a b. changed o && (a || b)) (h o false) (h o true) ∙ and_false (changed o)) in
    ap
      (λ c.
        if c
        then any_out (λ o. changed o && (if new o then taps w side o false else taps w side o true))
        else s)
      none_on

-- A pin of the side that does not change.
other_side : (side a b : Bool) → (a && same (not side) side && b) ≡ false
other_side true true b = refl
other_side true false b = refl
other_side false true b = refl
other_side false false b = refl

updated-other :
    (side : Bool) (old new : Out → Bool) (o : Out) (neg s : Bool)
    → updated side old new (pin (not side) o, neg) s ≡ s
updated-other side old new o neg s =
    updated_none side old new (pin (not side) o, neg) s
      (λ o' sign. other_side side (same_out o o') (same neg sign))

-- A pin of the side that changes.
own_bit :
    (old new neg : Bool)
    → (if not (same old new) && (same neg false || same neg true)
        then not (same old new) && (if new then same neg false else same neg true)
        else not (same neg old))
      ≡ not (same neg new)
own_bit true true true = refl
own_bit true true false = refl
own_bit true false true = refl
own_bit true false false = refl
own_bit false true true = refl
own_bit false true false = refl
own_bit false false true = refl
own_bit false false false = refl

own_taps :
    (side : Bool) (o : Out) (neg sign : Bool) → taps (pin side o, neg) side o sign ≡ same neg sign
own_taps side o neg sign = ap₂ (λ a b. a && b && same neg sign) (same_out_refl o) (same_refl side)

not_own :
    (side : Bool) (o o' : Out) (neg sign : Bool)
    → same_out o o' ≡ false
    → taps (pin side o, neg) side o' sign ≡ false
not_own side o o' neg sign e = ap (λ a. a && same side side && same neg sign) e

if_false : (c d : Bool) → (d && (if c then false else false)) ≡ false
if_false true d = and_false d
if_false false d = and_false d

mask-own :
    (side neg : Bool) (changed : Out → Bool) (o : Out)
    → any_out (λ a.
      changed a && (taps (pin side o, neg) side a false || taps (pin side o, neg) side a true))
      ≡ changed o && (same neg false || same neg true)
mask-own side neg changed o =
    any_only o
      (λ a.
        changed a && (taps (pin side o, neg) side a false || taps (pin side o, neg) side a true))
      (λ a e.
        ap₂ (λ x y. changed a && (x || y)) (not_own side o a neg false e)
          (not_own side o a neg true e)
        ∙ and_false (changed a))
    ∙ ap₂ (λ x y. changed o && (x || y)) (own_taps side o neg false) (own_taps side o neg true)

bits-own :
    (side neg : Bool) (changed new : Out → Bool) (o : Out)
    → any_out (λ a.
      changed a
      && (if new a
          then taps (pin side o, neg) side a false
          else taps (pin side o, neg) side a true))
      ≡ changed o && (if new o then same neg false else same neg true)
bits-own side neg changed new o =
    any_only o
      (λ a.
        changed a
        && (if new a
            then taps (pin side o, neg) side a false
            else taps (pin side o, neg) side a true))
      (λ a e.
        ap₂ (λ x y. changed a && (if new a then x else y)) (not_own side o a neg false e)
          (not_own side o a neg true e)
        ∙ if_false (new a) (changed a))
    ∙ ap₂ (λ x y. changed o && (if new o then x else y)) (own_taps side o neg false)
        (own_taps side o neg true)

updated-own :
    (side : Bool) (old new : Out → Bool) (o : Out) (neg : Bool)
    → updated side old new (pin side o, neg) (not (same neg (old o))) ≡ not (same neg (new o))
updated-own side old new o neg =
    let changed = λ (a : Out). not (same (old a) (new a)) in
    ap₂ (λ m b. if m then b else not (same neg (old o))) (mask-own side neg changed o)
      (bits-own side neg changed new o)
    ∙ own_bit (old o) (new o) neg

updated-on :
    (side : Bool) (old new : Out → Bool) (neg s : Bool) → updated side old new (on, neg) s ≡ s
updated-on side old new neg s = updated_none side old new (on, neg) s (λ o sign. refl)

updated-near :
    (old new far : Out → Bool) (w : Source × Bool)
    → updated false old new w (level old far w) ≡ level new far w
updated-near old new far (on, neg) = updated-on false old new neg (not neg)
updated-near old new far (pin true o, neg) =
    updated-other false old new o neg (not (same neg (far o)))
updated-near old new far (pin false o, neg) = updated-own false old new o neg

updated-far :
    (old new near : Out → Bool) (w : Source × Bool)
    → updated true old new w (level near old w) ≡ level near new w
updated-far old new near (on, neg) = updated-on true old new neg (not neg)
updated-far old new near (pin false o, neg) =
    updated-other true old new o neg (not (same neg (near o)))
updated-far old new near (pin true o, neg) = updated-own true old new o neg

-- The masks of the pins are those of the sources.
abbrev pub Tapped : (Msb → Source × Bool) → Bool → (Out → Msb → Bool) → Bool → Type 0
Tapped w side f sign = (o : Out) (d : Msb) → f o d ≡ taps (w d) side o sign

-- The status of `p` shows its sources `w`, and both ports know which pins to look at.
pub record Shows (w : Msb → Source × Bool) (p q : Port) : Type 0 where
  pub status : (d : Msb) → p.modem_status d ≡ level p.modem_control q.modem_control (w d)
  pub near_positive : Tapped w false (λ o. (p.pin_outs o).local_positive) false
  pub near_negative : Tapped w false (λ o. (p.pin_outs o).local_negative) true
  pub far_positive : Tapped w true (λ o. (q.pin_outs o).remote_positive) false
  pub far_negative : Tapped w true (λ o. (q.pin_outs o).remote_negative) true

-- Both ports of a pair show their sources.
abbrev pub Wired : (Msb → Source × Bool) → (Msb → Source × Bool) → Pair → Type 0
Wired v w s = Shows v s.local s.remote × Shows w s.remote s.local

-- One flag of a status behind `SetModemControl`, where the masks are those of its source.
status-updated :
    (side : Bool) (old new : Out → Bool) (w : Source × Bool) (d : Msb) (s : Bool)
    (pos neg : Out → Msb → Bool)
    → ((o : Out) → pos o d ≡ taps w side o false)
    → ((o : Out) → neg o d ≡ taps w side o true)
    → (let changed = λ (o : Out). not (same (old o) (new o)) in
        if mask_of changed pos neg d then bits_of changed new pos neg d else s)
      ≡ updated side old new w s
status-updated side old new w d s pos neg hp hn =
    let changed = λ (o : Out). not (same (old o) (new o)) in
    ap₂
      (λ (p n : Out → Bool).
        if any_out (λ o. changed o && (p o || n o))
        then any_out (λ o. changed o && (if new o then p o else n o))
        else s)
      (fun_ext hp) (fun_ext hn)

near-Shows :
    (v : Msb → Source × Bool) (bits mask : Out → Bool) (s : Pair)
    → Shows v s.local s.remote
    → Shows v (set_modem_control bits mask s).local (set_modem_control bits mask s).remote
unfolding set_modem_control set_modem_status
near-Shows v bits mask s h =
    let p = s.local in
    let old = p.modem_control in
    let new = masked bits mask old in
    record {
      status = λ d.
          status-updated false old new (v d) d (p.modem_status d)
            (λ o. (p.pin_outs o).local_positive) (λ o. (p.pin_outs o).local_negative)
            (λ o. h.near_positive o d) (λ o. h.near_negative o d)
          ∙ ap (updated false old new (v d)) (h.status d)
          ∙ updated-near old new s.remote.modem_control (v d);
      near_positive = h.near_positive;
      near_negative = h.near_negative;
      far_positive = h.far_positive;
      far_negative = h.far_negative;
    }

far-Shows :
    (w : Msb → Source × Bool) (bits mask : Out → Bool) (s : Pair)
    → Shows w s.remote s.local
    → Shows w (set_modem_control bits mask s).remote (set_modem_control bits mask s).local
unfolding set_modem_control set_modem_status
far-Shows w bits mask s h =
    let p = s.local in
    let old = p.modem_control in
    let new = masked bits mask old in
    record {
      status = λ d.
          status-updated true old new (w d) d (s.remote.modem_status d)
            (λ o. (p.pin_outs o).remote_positive) (λ o. (p.pin_outs o).remote_negative)
            (λ o. h.far_positive o d) (λ o. h.far_negative o d)
          ∙ ap (updated true old new (w d)) (h.status d)
          ∙ updated-far old new s.remote.modem_control (w d);
      near_positive = h.near_positive;
      near_negative = h.near_negative;
      far_positive = h.far_positive;
      far_negative = h.far_negative;
    }

-- SetModemControl keeps the modem status of both ports at the levels of the sources that their pins
-- are wired to, whatever bits it sets and clears, and keeps the record of who looks at which pin.
pub set_modem_control-Wired :
    (v w : Msb → Source × Bool) (bits mask : Out → Bool) (s : Pair)
    → Wired v w s
    → Wired v w (set_modem_control bits mask s)
set_modem_control-Wired v w bits mask s h =
    (near-Shows v bits mask s h.0, far-Shows w bits mask s h.1)
