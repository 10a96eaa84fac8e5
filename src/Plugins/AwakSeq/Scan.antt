-- ===== src/Plugins/AwakSeq/Scan.antt =====
-- The search for the awakening sequence (hub4com/plugins/awakseq/filter.cpp:304).
use com0com.Base.{
  ℕ, List, [], ◌∷◌, ◌++◌, ◌==◌, ◌≡◌, ◌≢◌, refl, sym, ap, ap₂, ◌∙◌, arith, inl, inr, Bool-cases,
  append_assoc, append-nil,
}
use com0com.Plugins.AwakSeq.{scan}

-- Where the search goes on with the bytes of the next message.
abbrev resume : List ℕ → List ℕ × List ℕ → List ℕ → List ℕ × List ℕ
resume seq ([], rest) ys = ([], rest ++ ys)
resume seq (x ∷ xs, rest) ys = scan seq (x ∷ xs) ys

-- How the bytes are split into messages is of no account.
scan-append :
    (seq next xs ys : List ℕ) → scan seq next (xs ++ ys) ≡ resume seq (scan seq next xs) ys
unfolding scan
scan-append seq [] xs ys = refl
scan-append seq (n ∷ next) [] ys = refl
scan-append seq (n ∷ next) (x ∷ xs) ys =
    ground (arith, scan-append seq next xs ys, scan-append seq seq xs ys)

-- When the search ends, the bytes up to there end with the sequence: `seen` is what had matched.
scan-finds_from :
    (seq seen next bs rest : List ℕ)
    → seen ++ next ≡ seq
    → scan seq next bs ≡ ([], rest)
    → (pre : List ℕ) × (seen ++ bs ≡ pre ++ (seq ++ rest))
unfolding scan
scan-finds_from seq seen [] bs rest h e =
    ([], ap₂ ◌++◌ (sym (append-nil seen) ∙ h) (ap (λ (p : List ℕ × List ℕ). p.1) e))
scan-finds_from seq seen (n ∷ next) [] rest h e = cc (ap (λ (p : List ℕ × List ℕ). p.0) e)
scan-finds_from seq seen (n ∷ next) (b ∷ bs) rest h e = elim (Bool-cases (n == b)) [
  | inl f ↦
      let g : scan seq next bs ≡ ([], rest) = ground arith in
      let m : n ≡ b = ground arith in
      let (pre, p) =
        scan-finds_from seq (seen ++ n ∷ []) next bs rest (append_assoc seen (n ∷ []) next ∙ h) g in
      (pre, ap (λ c. seen ++ c ∷ bs) (sym m) ∙ sym (append_assoc seen (n ∷ []) bs) ∙ p)
  | inr f ↦
      let g : scan seq seq bs ≡ ([], rest) = ground arith in
      let (pre, p) = scan-finds_from seq [] seq bs rest refl g in
      (seen ++ b ∷ pre, ap (λ l. seen ++ b ∷ l) p ∙ sym (append_assoc seen (b ∷ pre) (seq ++ rest)))
]

-- When a search from the start ends, the bytes are some bytes, the sequence, and what is left.
pub scan-finds :
    (seq bs rest : List ℕ)
    → scan seq seq bs ≡ ([], rest)
    → (pre : List ℕ) × (bs ≡ pre ++ (seq ++ rest))
scan-finds seq bs rest e = scan-finds_from seq [] seq bs rest refl e

-- A sequence of two different bytes, behind one more copy of its first byte, is not found.
scan-misses : (a b : ℕ) → a ≢ b → scan (a ∷ b ∷ []) (a ∷ b ∷ []) (a ∷ a ∷ b ∷ []) ≡ (a ∷ b ∷ [], [])
unfolding scan
scan-misses a b n = ground arith
