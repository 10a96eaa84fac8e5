-- ===== src/Examples/Parameters.antt =====
-- Witnesses for the theorems on com0com/setup.
use com0com.Base.{ℕ, List, [], ◌∷◌, some, ◌≡◌, refl}
use com0com.Setup.Params.{set_bit, init, pin_ri, kind, find_pin, pin_of}
use com0com.Setup.Params.Values.{eq_fold, value_str}
use com0com.Setup.Params.Stores.{Holds}
use com0com.Setup.Params.RoundTrip.{set_bit-value_str}

-- `!lRTS`, the local RTS inverted.
abbrev negative_lrts : List ℕ
negative_lrts = 33 ∷ 108 ∷ 82 ∷ 84 ∷ 83 ∷ []

-- Read so, the value is C0C_PIN_LRTS with the sign.
negative_lrts-read : pin_of eq_fold negative_lrts ≡ some 0x80000100
unfolding pin_of find_pin
negative_lrts-read = refl

set_bit-value_str_example :
    (s : List ℕ) × (value_str (kind pin_ri) 0x80000100 ≡ some s)
    × Holds pin_ri 0x80000100 (set_bit eq_fold s pin_ri init)
set_bit-value_str_example =
    set_bit-value_str eq_fold (λ s t. refl) negative_lrts pin_ri 0x80000100 init tt
      negative_lrts-read
