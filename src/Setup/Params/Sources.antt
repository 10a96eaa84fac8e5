-- ===== src/Setup/Params/Sources.antt =====
-- The pins that com0com/setup/params.cpp accepts are sources that com0com/sys/pinouts.c wires.
use com0com.Base.{
  ℕ, Bool, true, false, List, [], ◌∷◌, ◌==◌, some, bit_or, ◌≡◌, refl, sym, ap, subst, ◌∙◌,
  Bool-cases, Option-cases, inl, inr,
}
use com0com.Setup.Params.{pins, pin_negative, find_pin, pin_of, negated}
use com0com.Setup.Params.Values.{none≢some, some-injective}
use com0com.Driver.Pins.{Source, on, pin, rts, dtr, out1, out2, open_pin, source_of}

-- A value that PinWire has a case for.
abbrev pub Sourced : ℕ → Type 0
Sourced v = (r : Source × Bool) × (source_of v ≡ some r)

abbrev AllSourced : List (List ℕ × ℕ) → Type 0
AllSourced [] = Unit
AllSourced (e ∷ es) = Sourced e.1 × Sourced (bit_or pin_negative e.1) × AllSourced es

pins-Sourced : AllSourced pins
unfolding source_of
pins-Sourced = (
  ((pin true rts, false), refl),
  ((pin true rts, true), refl),
  (
    ((pin true dtr, false), refl),
    ((pin true dtr, true), refl),
    (
      ((pin true out1, false), refl),
      ((pin true out1, true), refl),
      (
        ((pin true out2, false), refl),
        ((pin true out2, true), refl),
        (
          ((pin true open_pin, false), refl),
          ((pin true open_pin, true), refl),
          (
            ((pin false rts, false), refl),
            ((pin false rts, true), refl),
            (
              ((pin false dtr, false), refl),
              ((pin false dtr, true), refl),
              (
                ((pin false out1, false), refl),
                ((pin false out1, true), refl),
                (
                  ((pin false out2, false), refl),
                  ((pin false out2, true), refl),
                  (
                    ((pin false open_pin, false), refl),
                    ((pin false open_pin, true), refl),
                    (((on, false), refl), ((on, true), refl), tt),
                  ),
                ),
              ),
            ),
          ),
        ),
      ),
    ),
  ),
)

module _ (same : List ℕ → List ℕ → Bool) where
  find_pin-Sourced :
      (es : List (List ℕ × ℕ)) (val : List ℕ) (v : ℕ)
      → AllSourced es
      → find_pin same es val ≡ some v
      → Sourced v × Sourced (bit_or pin_negative v)
  unfolding find_pin
  find_pin-Sourced [] val v a h = absurd (none≢some h)
  find_pin-Sourced (e ∷ es) val v a h = elim (Bool-cases (same val e.0)) [
    | inl x ↦
        let is : e.1 ≡ v = some-injective (sym (rw x refl) ∙ h) in
        (subst Sourced is a.0, subst (λ w. Sourced (bit_or pin_negative w)) is a.1)
    | inr x ↦ find_pin-Sourced es val v a.2 (sym (rw x refl) ∙ h)
  ]

  negated-Sourced : (val : List ℕ) (v : ℕ) → negated (find_pin same pins val) ≡ some v → Sourced v
  negated-Sourced val v h = elim (Option-cases (find_pin same pins val)) [
    | inl e ↦ absurd (none≢some (sym (ap negated e) ∙ h))
    | inr r ↦
        subst Sourced (some-injective (sym (ap negated r.1) ∙ h))
          (find_pin-Sourced pins val r.0 pins-Sourced r.1).1
  ]

  -- Whatever value SetPin stores for a pin, PinWire has a case for it: whatever the text, and
  -- whichever texts lstrcmpi takes as equal.
  pub pin_of-Sourced : (val : List ℕ) (v : ℕ) → pin_of same val ≡ some v → Sourced v
  unfolding pin_of
  pin_of-Sourced [] v h = (find_pin-Sourced pins [] v pins-Sourced h).0
  pin_of-Sourced (c ∷ cs) v h = elim (Bool-cases (c == 33)) [
    | inl e ↦ negated-Sourced cs v (sym (rw e refl) ∙ h)
    | inr e ↦ (find_pin-Sourced pins (c ∷ cs) v pins-Sourced (sym (rw e refl) ∙ h)).0
  ]
