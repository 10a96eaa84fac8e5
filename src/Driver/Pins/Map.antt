-- ===== src/Driver/Pins/Map.antt =====
-- `PinMap` of com0com/sys/pinouts.c wires the pins of a port to the sources of its settings.
use com0com.Base.{
  ℕ, Bool, true, false, ◌&&◌, ◌||◌, if◌then◌else◌, Option, some, ◌≡◌, refl, sym, ap, ap₂, subst,
  ◌∙◌, Bool-cases, inl, inr, arith,
}
use com0com.Driver.Pins.{
  Out, Msb, cts, dsr, rlsd, ring, Pair, same, same_out, same_msb, Source, on, pin, pin_wire,
  wire_source, source_of, pin_map, clear_local, clear_remote,
}
use com0com.Driver.Pins.Wiring.{level, taps, Tapped, Shows, Wired, and_false}
use std.Path.{fun_ext}

-- A mask with the flag `dst` put in where the source `r` is the pin.
abbrev Put : Source × Bool → Msb → Bool → Bool → (Out → Msb → Bool) → (Out → Msb → Bool) → Type 0
Put r dst side sign f g =
    (o : Out) (d : Msb) → g o d ≡ (f o d || (taps r side o sign && same_msb dst d))

-- One call of PinWire: the status and the masks for this side, and what stays.
record Wires (w : Msb → Source × Bool) (r : Source × Bool) (dst : Msb) (s t : Pair) : Type 0 where
  near_control : t.local.modem_control ≡ s.local.modem_control
  far_control : t.remote.modem_control ≡ s.remote.modem_control
  status :
      (d : Msb)
      → t.local.modem_status d ≡ (
          if same_msb dst d
          then level s.local.modem_control s.remote.modem_control r
          else s.local.modem_status d)
  near_positive :
      Put r dst false false
        (λ o. (s.local.pin_outs o).local_positive)
        (λ o. (t.local.pin_outs o).local_positive)
  near_negative :
      Put r dst false true
        (λ o. (s.local.pin_outs o).local_negative)
        (λ o. (t.local.pin_outs o).local_negative)
  far_positive :
      Put r dst true false
        (λ o. (s.remote.pin_outs o).remote_positive)
        (λ o. (t.remote.pin_outs o).remote_positive)
  far_negative :
      Put r dst true true
        (λ o. (s.remote.pin_outs o).remote_negative)
        (λ o. (t.remote.pin_outs o).remote_negative)
  others : Shows w s.remote s.local → Shows w t.remote t.local

and_true : (x : Bool) → (x && true) ≡ x
and_true x = ground arith

or_false : (x : Bool) → x ≡ x || false
or_false x = ground arith

or_none : (x a c e : Bool) → x ≡ x || ((a && false && c) && e)
or_none x a c e = ground arith

or_here : (x a c e : Bool) → (x || ((a && c) && e)) ≡ (x || ((a && true && c) && e))
or_here x a c e = ground arith

pin_wire-Wires :
    (w : Msb → Source × Bool) (r : Source × Bool) (dst : Msb) (s : Pair)
    → Wires w r dst s (pin_wire r.0 r.1 dst s)
unfolding pin_wire
pin_wire-Wires w (on, neg) dst s = record {
  near_control = refl;
  far_control = refl;
  status = λ d. refl;
  near_positive = λ o d. or_false _;
  near_negative = λ o d. or_false _;
  far_positive = λ o d. or_false _;
  far_negative = λ o d. or_false _;
  others = λ h. record {
    status = h.status;
    near_positive = h.near_positive;
    near_negative = h.near_negative;
    far_positive = h.far_positive;
    far_negative = h.far_negative;
  };
}
pin_wire-Wires w (pin true o', neg) dst s = record {
  near_control = refl;
  far_control = refl;
  status = λ d. refl;
  near_positive = λ o d. or_none _ (same_out o' o) (same neg false) (same_msb dst d);
  near_negative = λ o d. or_none _ (same_out o' o) (same neg true) (same_msb dst d);
  far_positive = λ o d. or_here _ (same_out o' o) (same neg false) (same_msb dst d);
  far_negative = λ o d. or_here _ (same_out o' o) (same neg true) (same_msb dst d);
  others = λ h. record {
    status = h.status;
    near_positive = h.near_positive;
    near_negative = h.near_negative;
    far_positive = h.far_positive;
    far_negative = h.far_negative;
  };
}
pin_wire-Wires w (pin false o', neg) dst s = record {
  near_control = refl;
  far_control = refl;
  status = λ d. refl;
  near_positive = λ o d. or_here _ (same_out o' o) (same neg false) (same_msb dst d);
  near_negative = λ o d. or_here _ (same_out o' o) (same neg true) (same_msb dst d);
  far_positive = λ o d. or_none _ (same_out o' o) (same neg false) (same_msb dst d);
  far_negative = λ o d. or_none _ (same_out o' o) (same neg true) (same_msb dst d);
  others = λ h. record {
    status = h.status;
    near_positive = h.near_positive;
    near_negative = h.near_negative;
    far_positive = h.far_positive;
    far_negative = h.far_negative;
  };
}

same_msb_eq : (a b : Msb) → same_msb a b ≡ true → a ≡ b
same_msb_eq cts cts h = refl
same_msb_eq cts dsr h = cc
same_msb_eq cts rlsd h = cc
same_msb_eq cts ring h = cc
same_msb_eq dsr cts h = cc
same_msb_eq dsr dsr h = refl
same_msb_eq dsr rlsd h = cc
same_msb_eq dsr ring h = cc
same_msb_eq rlsd cts h = cc
same_msb_eq rlsd dsr h = cc
same_msb_eq rlsd rlsd h = refl
same_msb_eq rlsd ring h = cc
same_msb_eq ring cts h = cc
same_msb_eq ring dsr h = cc
same_msb_eq ring rlsd h = cc
same_msb_eq ring ring h = refl

at_same :
    (f a : Msb → Bool) (dst d : Msb)
    → (f d && a d) || (f dst && same_msb dst d) ≡ f d && (a d || same_msb dst d)
at_same f a dst d = elim (Bool-cases (same_msb dst d)) [
  | inl e ↦
      subst (λ x. ((f d && a d) || (f x && same_msb dst d)) ≡ (f d && (a d || same_msb dst d)))
        (sym (same_msb_eq dst d e)) (ground arith)
  | inr e ↦ rw e (ground arith)
]

-- What is done when the pins in `done` are wired: the levels `near` and `far` are those of the pins.
abbrev Masked : (Msb → Source × Bool) → (Msb → Bool) → Bool → Bool → (Out → Msb → Bool) → Type 0
Masked v done side sign g = (o : Out) (d : Msb) → g o d ≡ taps (v d) side o sign && done d

record Part (v w : Msb → Source × Bool) (done : Msb → Bool) (s t : Pair) : Type 0 where
  near_control : t.local.modem_control ≡ s.local.modem_control
  far_control : t.remote.modem_control ≡ s.remote.modem_control
  status :
      (d : Msb)
      → done d ≡ true
      → t.local.modem_status d ≡ level s.local.modem_control s.remote.modem_control (v d)
  near_positive : Masked v done false false (λ o. (t.local.pin_outs o).local_positive)
  near_negative : Masked v done false true (λ o. (t.local.pin_outs o).local_negative)
  far_positive : Masked v done true false (λ o. (t.remote.pin_outs o).remote_positive)
  far_negative : Masked v done true true (λ o. (t.remote.pin_outs o).remote_negative)
  others : Shows w s.remote s.local → Shows w t.remote t.local

abbrev and_done : Msb → (Msb → Bool) → Msb → Bool
and_done dst done d = done d || same_msb dst d

Put-Masked :
    (v : Msb → Source × Bool) (dst : Msb) (done : Msb → Bool) (side sign : Bool)
    (f g : Out → Msb → Bool)
    → Masked v done side sign f
    → Put (v dst) dst side sign f g
    → Masked v (and_done dst done) side sign g
Put-Masked v dst done side sign f g m p o d =
    p o d
    ∙ ap (λ x. x || (taps (v dst) side o sign && same_msb dst d)) (m o d)
    ∙ at_same (λ e. taps (v e) side o sign) done dst d

pin_wire-Part :
    (v w : Msb → Source × Bool) (dst : Msb) (done : Msb → Bool) (s t : Pair)
    → Part v w done s t
    → Part v w (and_done dst done) s (pin_wire (v dst).0 (v dst).1 dst t)
pin_wire-Part v w dst done s t h =
    let r = pin_wire-Wires w (v dst) dst t in
    record {
      near_control = r.near_control ∙ h.near_control;
      far_control = r.far_control ∙ h.far_control;
      status = λ d e. r.status d ∙ elim (Bool-cases (same_msb dst d)) [
        | inl k ↦ rw k (
            ap₂ (λ x y. level x y (v dst)) h.near_control h.far_control
            ∙ ap (λ x. level s.local.modem_control s.remote.modem_control (v x))
                (same_msb_eq dst d k))
        | inr k ↦ let here : done d ≡ true = ground arith in rw k (h.status d here)
      ];
      near_positive = Put-Masked v dst done false false _ _ h.near_positive r.near_positive;
      near_negative = Put-Masked v dst done false true _ _ h.near_negative r.near_negative;
      far_positive = Put-Masked v dst done true false _ _ h.far_positive r.far_positive;
      far_negative = Put-Masked v dst done true true _ _ h.far_negative r.far_negative;
      others = λ k. r.others (h.others k);
    }

-- All four pins.
wire_all : (Msb → Option (Source × Bool)) → Pair → Pair
wire_all f s =
    wire_source ring (f ring)
      (wire_source rlsd (f rlsd) (wire_source dsr (f dsr) (wire_source cts (f cts) s)))

abbrev cleared : Pair → Pair
cleared s = record { local = clear_local s.local; remote = clear_remote s.remote }

abbrev nothing : Msb → Bool
nothing d = false

cleared-Part : (v w : Msb → Source × Bool) (s : Pair) → Part v w nothing s (cleared s)
cleared-Part v w s = record {
  near_control = refl;
  far_control = refl;
  status = λ d e. cc;
  near_positive = λ o d. sym (and_false (taps (v d) false o false));
  near_negative = λ o d. sym (and_false (taps (v d) false o true));
  far_positive = λ o d. sym (and_false (taps (v d) true o false));
  far_negative = λ o d. sym (and_false (taps (v d) true o true));
  others = λ h. record {
    status = h.status;
    near_positive = h.near_positive;
    near_negative = h.near_negative;
    far_positive = h.far_positive;
    far_negative = h.far_negative;
  };
}

abbrev everything : Msb → Bool
everything = and_done ring (and_done rlsd (and_done dsr (and_done cts nothing)))

everything-true : (d : Msb) → everything d ≡ true
everything-true cts = refl
everything-true dsr = refl
everything-true rlsd = refl
everything-true ring = refl

wire_all-Part :
    (v w : Msb → Source × Bool) (s : Pair)
    → Part v w everything s (wire_all (λ d. some (v d)) (cleared s))
unfolding wire_all
wire_all-Part v w s = pin_wire-Part v w ring _ s _ (
    pin_wire-Part v w rlsd _ s _
      (pin_wire-Part v w dsr _ s _ (pin_wire-Part v w cts nothing s _ (cleared-Part v w s))))

all-Tapped :
    (v : Msb → Source × Bool) (side sign : Bool) (g : Out → Msb → Bool)
    → Masked v everything side sign g
    → Tapped v side g sign
all-Tapped v side sign g m o d =
    m o d
    ∙ ap (λ x. taps (v d) side o sign && x) (everything-true d)
    ∙ and_true (taps (v d) side o sign)

Part-Wired :
    (v w : Msb → Source × Bool) (s t : Pair)
    → Part v w everything s t
    → Shows w s.remote s.local
    → Wired v w t
Part-Wired v w s t h k = (
  record {
    status = λ d.
        h.status d (everything-true d)
        ∙ sym (ap₂ (λ x y. level x y (v d)) h.near_control h.far_control);
    near_positive = all-Tapped v false false _ h.near_positive;
    near_negative = all-Tapped v false true _ h.near_negative;
    far_positive = all-Tapped v true false _ h.far_positive;
    far_negative = all-Tapped v true true _ h.far_negative;
  },
  h.others k,
)

-- PinMap, on codes of sources, gives the modem status of the port the levels of these sources, and
-- both ports the record of who looks at which pin, whatever they were before. The other port must
-- show its own sources before, and still does.
pub pin_map-Wired :
    (codes : Msb → ℕ) (v w : Msb → Source × Bool) (s : Pair)
    → ((d : Msb) → source_of (codes d) ≡ some (v d))
    → Shows w s.remote s.local
    → Wired v w (pin_map codes s)
unfolding pin_map wire_all
pin_map-Wired codes v w s h k =
    subst (λ f. Wired v w (wire_all f (cleared s))) (sym (fun_ext h))
      (Part-Wired v w s _ (wire_all-Part v w s) k)
