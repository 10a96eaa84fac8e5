-- ===== src/Setup/Params/RoundTrip.antt =====
-- `SetBit` and `FillParametersStr` of com0com/setup/params.cpp together.
use com0com.Base.{ℕ, Bool, List, some, ◌≡◌, sym, subst}
use com0com.Setup.Params.{Bit, PortParameters, set_bit, kind, value_of}
use com0com.Setup.Params.Values.{Named, eq_fold, value_str, value_of-Printable}
use com0com.Setup.Params.Stores.{Holds, set_bit-Stores}
use std.Path.{fun_ext}

module _ (same : List ℕ → List ℕ → Bool)
    (same_folds : (s t : List ℕ) → same s t ≡ eq_fold s t) where
  -- The comparison is the documented one.
  folds : same ≡ eq_fold
  folds = fun_ext (λ s. fun_ext (same_folds s))

  -- What set a flag or a pin is printed as a text that sets it again: when `val` is a name that the
  -- setter of the parameter reads as the value `v`, FillParametersStr has a text for `v`, and SetBit
  -- of that text succeeds and leaves `v` in the parameter. The comparison of strings is the
  -- documented one, which takes letters of both cases as equal.
  pub set_bit-value_str :
      (val : List ℕ) (b : Bit) (v : ℕ) (p : PortParameters)
      → Named (kind b)
      → value_of same (kind b) val ≡ some v
      → (s : List ℕ) × (value_str (kind b) v ≡ some s) × Holds b v (set_bit same s b p)
  set_bit-value_str val b v p n h =
      let text =
        value_of-Printable (kind b) val v n
          (subst (λ f. value_of f (kind b) val ≡ some v) folds h) in
      (
        text.0,
        text.1,
        subst (λ f. Holds b v (set_bit f text.0 b p)) (sym folds)
            (set_bit-Stores text.0 b v p n text.2),
      )
