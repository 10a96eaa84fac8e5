-- ===== src/Base/Slices.antt =====
-- Slices of lists, and a block copied into an array of bytes.
use Prim.Native.Nat.{ℕ, zero, suc, ◌+◌, ◌≤◌}
use mathlib.Core.Path.{◌≡◌, refl, sym, ap, ap₂, ◌∙◌}
use mathlib.Core.List.{List, [], ◌∷◌, ◌++◌, append_assoc}
use native.Mathlib.Omega.{arith}
use com0com.Base.Lists.{length, take, drop, length-append, length-take, length-drop}

module _ {ℓ} {A : Type ℓ} where
  -- `RtlCopyMemory(xs + i, bs, length bs)`. A copy that passes the end of the array makes the
  -- list longer.
  abbrev pub blit : List A → ℕ → List A → List A
  blit xs i bs = take i xs ++ (bs ++ drop (i + length bs) xs)

  pub take-length_append : (xs ys : List A) → take (length xs) (xs ++ ys) ≡ xs
  take-length_append [] ys = refl
  take-length_append (x ∷ xs) ys = ap (◌∷◌ x) (take-length_append xs ys)

  pub drop-length_append : (xs ys : List A) → drop (length xs) (xs ++ ys) ≡ ys
  drop-length_append [] ys = refl
  drop-length_append (x ∷ xs) ys = drop-length_append xs ys

  pub take-append_of_le : (n : ℕ) (xs ys : List A) → n ≤ length xs → take n (xs ++ ys) ≡ take n xs
  take-append_of_le zero xs ys h = refl
  take-append_of_le (suc n) [] ys h = absurd (omega arith)
  take-append_of_le (suc n) (x ∷ xs) ys h = ap (◌∷◌ x) (take-append_of_le n xs ys (omega arith))

  pub take_all : (n : ℕ) (xs : List A) → length xs ≤ n → take n xs ≡ xs
  take_all zero [] h = refl
  take_all zero (x ∷ xs) h = absurd (omega arith)
  take_all (suc n) [] h = refl
  take_all (suc n) (x ∷ xs) h = ap (◌∷◌ x) (take_all n xs (omega arith))

  pub drop_all : (n : ℕ) (xs : List A) → length xs ≤ n → drop n xs ≡ []
  drop_all zero [] h = refl
  drop_all zero (x ∷ xs) h = absurd (omega arith)
  drop_all (suc n) [] h = refl
  drop_all (suc n) (x ∷ xs) h = drop_all n xs (omega arith)

  -- Dropping in two steps.
  pub drop-drop : (m n : ℕ) (xs : List A) → drop n (drop m xs) ≡ drop (m + n) xs
  drop-drop zero n xs = ap (λ k. drop k xs) (omega arith)
  drop-drop (suc m) n [] = drop_all n [] (omega arith) ∙ sym (drop_all (suc m + n) [] (omega arith))
  drop-drop (suc m) n (x ∷ xs) =
      drop-drop m n xs ∙ ap (λ k. drop k (x ∷ xs)) {x = suc (m + n)} {y = suc m + n} (omega arith)

  -- Taking in two steps.
  pub take-add : (m n : ℕ) (xs : List A) → take (m + n) xs ≡ take m xs ++ take n (drop m xs)
  take-add zero n xs = ap (λ k. take k xs) (omega arith)
  take-add (suc m) n [] = take_all (suc m + n) [] (omega arith) ∙ sym (take_all n [] (omega arith))
  take-add (suc m) n (x ∷ xs) =
      ap (λ k. take k (x ∷ xs)) {x = suc m + n} {y = suc (m + n)} (omega arith)
      ∙ ap (◌∷◌ x) (take-add m n xs)

  pub length_zero : (xs : List A) → length xs ≡ 0 → xs ≡ []
  length_zero [] h = refl
  length_zero (x ∷ xs) h = absurd (omega arith)

  pub drop-two_append : (xs ys zs : List A) → drop (length xs + length ys) (xs ++ (ys ++ zs)) ≡ zs
  drop-two_append xs ys zs =
      sym (drop-drop (length xs) (length ys) (xs ++ (ys ++ zs)))
      ∙ ap (drop (length ys)) (drop-length_append xs (ys ++ zs))
      ∙ drop-length_append ys zs

  -- Dropping from what is taken.
  pub drop-take : (m n : ℕ) (xs : List A) → drop m (take (m + n) xs) ≡ take n (drop m xs)
  drop-take zero n xs = ap (λ k. take k xs) (omega arith)
  drop-take (suc m) n [] =
      ap (drop (suc m)) (take_all (suc m + n) [] (omega arith)) ∙ sym (take_all n [] (omega arith))
  drop-take (suc m) n (x ∷ xs) =
      ap (λ k. drop (suc m) (take k (x ∷ xs))) {x = suc m + n} {y = suc (m + n)} (omega arith)
      ∙ drop-take m n xs

  pub take-take : (m n : ℕ) (xs : List A) → m ≤ n → take m (take n xs) ≡ take m xs
  take-take zero n xs h = refl
  take-take (suc m) zero xs h = absurd (omega arith)
  take-take (suc m) (suc n) [] h = refl
  take-take (suc m) (suc n) (x ∷ xs) h = ap (◌∷◌ x) (take-take m n xs (omega arith))

  -- A block of the same size in the place of the middle part.
  pub blit-middle :
      (xs ys zs bs : List A) (i : ℕ)
      → i ≡ length xs
      → length bs ≡ length ys
      → blit (xs ++ (ys ++ zs)) i bs ≡ xs ++ (bs ++ zs)
  blit-middle xs ys zs bs i e h =
      ap₂ (λ us vs. us ++ (bs ++ vs))
        (ap (λ k. take k (xs ++ (ys ++ zs))) e ∙ take-length_append xs (ys ++ zs))
        (ap (λ k. drop k (xs ++ (ys ++ zs))) (ap₂ (◌+◌) e h) ∙ drop-two_append xs ys zs)

  -- A copy inside the array keeps its length.
  pub length-blit :
      (xs bs : List A) (i : ℕ) → i + length bs ≤ length xs → length (blit xs i bs) ≡ length xs
  length-blit xs bs i h = omega (
    arith,
    length-append (take i xs) (bs ++ drop (i + length bs) xs),
    length-append bs (drop (i + length bs) xs),
    length-drop (i + length bs) xs,
    length-take i xs (omega arith),
  )

  -- What stands in the array up to the end of the copy.
  pub take-blit :
      (xs bs : List A) (i : ℕ)
      → i ≤ length xs
      → take (i + length bs) (blit xs i bs) ≡ take i xs ++ bs
  take-blit xs bs i h =
      ap₂ take {x = i + length bs} {y = length (take i xs ++ bs)}
        (omega (arith, length-append (take i xs) bs, length-take i xs h))
        (sym (append_assoc (take i xs) bs (drop (i + length bs) xs)))
      ∙ take-length_append (take i xs ++ bs) (drop (i + length bs) xs)
