-- ===== src/Setup/Params/Values.antt =====
-- Values of com0com/setup/params.cpp that are names, printed as `FillParametersStr` does and set again.
use com0com.Base.{
  ℕ, ◌+◌, ◌-◌, Bool, true, false, ◌&&◌, ◌||◌, List, [], ◌∷◌, ltb, ◌==◌, nonzero, if◌then◌else◌,
  Option, some, none, bit_and, bit_or, ◌≡◌, refl, sym, ap, ◌∙◌, subst, Bool-cases, Option-cases,
  inl, inr,
}
use com0com.Setup.Params.{
  Kind, other, flag, pin, probability, unsigned, pins, pin_negative, yes, no, star, minus, value_of,
  find_pin, flag_of, pin_of, negated,
}

IsNone : Option ℕ → Type 0
IsNone none = Unit
IsNone (some v) = ⊥

pub none≢some : {v : ℕ} → none ≡ some v → ⊥
unfolding IsNone
none≢some h = subst IsNone h tt

value_or : ℕ → Option ℕ → ℕ
value_or d none = d
value_or d (some v) = v

pub some-injective : {v w : ℕ} → some v ≡ some w → v ≡ w
unfolding value_or
some-injective {v = v} h = ap (value_or v) h

-- The part of `FillParametersStr` that prints the value of a flag or of a pin.
abbrev name_of : List (List ℕ × ℕ) → ℕ → Option (List ℕ)
name_of [] v = none
name_of (e ∷ es) v = if v == e.1 then some e.0 else name_of es v

abbrev with_sign : ℕ → Option (List ℕ) → Option (List ℕ)
with_sign v none = none
with_sign v (some s) = some (if bit_and v pin_negative == 0 then s else 33 ∷ s)

abbrev pub value_str : Kind → ℕ → Option (List ℕ)
value_str flag v = some (if nonzero v then yes else no)
value_str pin v = with_sign v (name_of pins (v - bit_and v pin_negative))
value_str _ v = none

-- The documented comparison of `lstrcmpi` on ASCII: letters of both cases are equal.
abbrev lower : ℕ → ℕ
lower c = if ltb c 65 || ltb 90 c then c else c + 32

abbrev pub eq_fold : List ℕ → List ℕ → Bool
eq_fold [] [] = true
eq_fold (a ∷ s) (b ∷ t) = (lower a == lower b) && eq_fold s t
eq_fold _ _ = false

-- The parameters that are set by a name.
abbrev pub Named : Kind → Type 0
Named flag = Unit
Named pin = Unit
Named _ = ⊥

-- A value is read from a text that is neither * nor -.
abbrev pub Reads : (List ℕ → List ℕ → Bool) → Kind → ℕ → List ℕ → Type 0
Reads same k v s = (value_of same k s ≡ some v) × (same s star ≡ false) × (same minus s ≡ false)

-- Printed text that is read as the value again.
abbrev pub Printable : Kind → ℕ → Type 0
Printable k v = (s : List ℕ) × (value_str k v ≡ some s) × Reads eq_fold k v s

abbrev AllPrintable : List (List ℕ × ℕ) → Type 0
AllPrintable [] = Unit
AllPrintable (e ∷ es) =
    Printable pin e.1 × Printable pin (bit_or pin_negative e.1) × AllPrintable es

pins-Printable : AllPrintable pins
unfolding pin_of find_pin
pins-Printable = (
  ((114 ∷ 114 ∷ 116 ∷ 115 ∷ []), refl, (refl, refl, refl)),
  ((33 ∷ 114 ∷ 114 ∷ 116 ∷ 115 ∷ []), refl, (refl, refl, refl)),
  (
    ((114 ∷ 100 ∷ 116 ∷ 114 ∷ []), refl, (refl, refl, refl)),
    ((33 ∷ 114 ∷ 100 ∷ 116 ∷ 114 ∷ []), refl, (refl, refl, refl)),
    (
      ((114 ∷ 111 ∷ 117 ∷ 116 ∷ 49 ∷ []), refl, (refl, refl, refl)),
      ((33 ∷ 114 ∷ 111 ∷ 117 ∷ 116 ∷ 49 ∷ []), refl, (refl, refl, refl)),
      (
        ((114 ∷ 111 ∷ 117 ∷ 116 ∷ 50 ∷ []), refl, (refl, refl, refl)),
        ((33 ∷ 114 ∷ 111 ∷ 117 ∷ 116 ∷ 50 ∷ []), refl, (refl, refl, refl)),
        (
          ((114 ∷ 111 ∷ 112 ∷ 101 ∷ 110 ∷ []), refl, (refl, refl, refl)),
          ((33 ∷ 114 ∷ 111 ∷ 112 ∷ 101 ∷ 110 ∷ []), refl, (refl, refl, refl)),
          (
            ((108 ∷ 114 ∷ 116 ∷ 115 ∷ []), refl, (refl, refl, refl)),
            ((33 ∷ 108 ∷ 114 ∷ 116 ∷ 115 ∷ []), refl, (refl, refl, refl)),
            (
              ((108 ∷ 100 ∷ 116 ∷ 114 ∷ []), refl, (refl, refl, refl)),
              ((33 ∷ 108 ∷ 100 ∷ 116 ∷ 114 ∷ []), refl, (refl, refl, refl)),
              (
                ((108 ∷ 111 ∷ 117 ∷ 116 ∷ 49 ∷ []), refl, (refl, refl, refl)),
                ((33 ∷ 108 ∷ 111 ∷ 117 ∷ 116 ∷ 49 ∷ []), refl, (refl, refl, refl)),
                (
                  ((108 ∷ 111 ∷ 117 ∷ 116 ∷ 50 ∷ []), refl, (refl, refl, refl)),
                  ((33 ∷ 108 ∷ 111 ∷ 117 ∷ 116 ∷ 50 ∷ []), refl, (refl, refl, refl)),
                  (
                    ((108 ∷ 111 ∷ 112 ∷ 101 ∷ 110 ∷ []), refl, (refl, refl, refl)),
                    ((33 ∷ 108 ∷ 111 ∷ 112 ∷ 101 ∷ 110 ∷ []), refl, (refl, refl, refl)),
                    (
                      ((111 ∷ 110 ∷ []), refl, (refl, refl, refl)),
                      ((33 ∷ 111 ∷ 110 ∷ []), refl, (refl, refl, refl)),
                      tt,
                    ),
                  ),
                ),
              ),
            ),
          ),
        ),
      ),
    ),
  ),
)

find_pin-Printable :
    (es : List (List ℕ × ℕ)) (val : List ℕ) (v : ℕ)
    → AllPrintable es
    → find_pin eq_fold es val ≡ some v
    → Printable pin v × Printable pin (bit_or pin_negative v)
unfolding find_pin
find_pin-Printable [] val v a h = absurd (none≢some h)
find_pin-Printable (e ∷ es) val v a h = elim (Bool-cases (eq_fold val e.0)) [
  | inl x ↦
      let same : e.1 ≡ v = some-injective (sym (rw x refl) ∙ h) in
      (subst (Printable pin) same a.0, subst (λ w. Printable pin (bit_or pin_negative w)) same a.1)
  | inr x ↦ find_pin-Printable es val v a.2 (sym (rw x refl) ∙ h)
]

negated-Printable :
    (val : List ℕ) (v : ℕ) → negated (find_pin eq_fold pins val) ≡ some v → Printable pin v
negated-Printable val v h = elim (Option-cases (find_pin eq_fold pins val)) [
  | inl e ↦ absurd (none≢some (sym (ap negated e) ∙ h))
  | inr r ↦
      subst (Printable pin) (some-injective (sym (ap negated r.1) ∙ h))
        (find_pin-Printable pins val r.0 pins-Printable r.1).1
]

pin_of-Printable : (val : List ℕ) (v : ℕ) → pin_of eq_fold val ≡ some v → Printable pin v
unfolding pin_of
pin_of-Printable [] v h = (find_pin-Printable pins [] v pins-Printable h).0
pin_of-Printable (c ∷ cs) v h = elim (Bool-cases (c == 33)) [
  | inl e ↦ negated-Printable cs v (sym (rw e refl) ∙ h)
  | inr e ↦ (find_pin-Printable pins (c ∷ cs) v pins-Printable (sym (rw e refl) ∙ h)).0
]

yes-Printable : Printable flag 0xFFFFFFFF
unfolding flag_of
yes-Printable = (yes, refl, (refl, refl, refl))

no-Printable : Printable flag 0
unfolding flag_of
no-Printable = (no, refl, (refl, refl, refl))

flag_of-Printable : (val : List ℕ) (v : ℕ) → flag_of eq_fold val ≡ some v → Printable flag v
unfolding flag_of
flag_of-Printable val v h = elim (Bool-cases (eq_fold val yes)) [
  | inl e ↦
      let read : flag_of eq_fold val ≡ some 0xFFFFFFFF = rw e refl in
      subst (Printable flag) (some-injective (sym read ∙ h)) yes-Printable
  | inr e ↦ elim (Bool-cases (eq_fold val no)) [
    | inl f ↦
        let read : flag_of eq_fold val ≡ some 0 = rw (e, f) refl in
        subst (Printable flag) (some-injective (sym read ∙ h)) no-Printable
    | inr f ↦
        let read : flag_of eq_fold val ≡ none = rw (e, f) refl in absurd (none≢some (sym read ∙ h))
  ]
]

pub value_of-Printable :
    (k : Kind) (val : List ℕ) (v : ℕ) → Named k → value_of eq_fold k val ≡ some v → Printable k v
value_of-Printable flag val v n h = flag_of-Printable val v h
value_of-Printable pin val v n h = pin_of-Printable val v h
value_of-Printable other val v n h = absurd n
value_of-Printable probability val v n h = absurd n
value_of-Printable unsigned val v n h = absurd n
