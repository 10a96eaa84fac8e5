-- ===== src/Driver/Ring.antt =====
-- The ring of bytes in C0C_BUFFER and C0C_TX_BUFFER of com0com/sys/com0com.h: where its live bytes
-- stand in the memory block, and what the steps that bufutils.c repeats do to them. A pointer into
-- the block is its distance from pBase.
use com0com.Base.{
  ℕ, ◌+◌, ◌-◌, ◌≤◌, ◌<◌, List, [], ◌++◌, ◌≡◌, sym, ap, ap₂, ◌∙◌, arith, length, take, drop, blit,
  leb, ◌==◌, if◌then◌else◌, take-append_of_le, length-take, length-drop, length-append,
  append_assoc, take-drop, inl, inr, ◌⊎◌, append-nil, drop_all, drop-append, drop-length_append,
  blit-middle, drop-two_append,
}

-- `p += length; if (p == pEnd) p = pBase;`
abbrev pub advance : ℕ → ℕ → ℕ → ℕ
advance p length p_end = if p + length == p_end then 0 else p + length

-- The live bytes that stand in one piece at `pBusy`.
abbrev pub live_run : ℕ → ℕ → ℕ → ℕ → ℕ
live_run p_busy p_free p_end busy = if leb p_free p_busy then p_end - p_busy else busy

-- The room in one piece at `pFree`.
abbrev pub free_run : ℕ → ℕ → ℕ → ℕ
free_run p_busy p_free p_end = if leb p_busy p_free then p_end - p_free else p_busy - p_free

-- The bytes `q` stand in the block, in order, from `pBusy` on: in one piece before the end, or in
-- a piece up to the end and one at the start.
pub data Holds (mem : List ℕ) (p_busy p_free busy : ℕ) (q : List ℕ) : Type 0 where
  linear :
      (before after : List ℕ)
      → mem ≡ before ++ (q ++ after)
      → p_busy ≡ length before
      → p_free ≡ length before + length q
      → 0 < length after
      → busy ≡ length q
      → Holds mem p_busy p_free busy q
  wrapped :
      (low gap high : List ℕ)
      → mem ≡ low ++ (gap ++ high)
      → q ≡ high ++ low
      → p_busy ≡ length low + length gap
      → p_free ≡ length low
      → 0 < length high
      → busy ≡ length q
      → Holds mem p_busy p_free busy q

size_of_parts :
    (mem xs ys zs : List ℕ)
    → mem ≡ xs ++ (ys ++ zs)
    → length mem ≡ length xs + (length ys + length zs)
size_of_parts mem xs ys zs e =
    ap length e ∙ length-append xs (ys ++ zs) ∙ ap (◌+◌ (length xs)) (length-append ys zs)

regroup : (a b c d : List ℕ) → a ++ ((b ++ c) ++ d) ≡ (a ++ b) ++ (c ++ d)
regroup a b c d = ap (◌++◌ a) (append_assoc b c d) ∙ sym (append_assoc a b (c ++ d))

split_at : (n : ℕ) (a b c : List ℕ) → a ++ (b ++ c) ≡ (a ++ take n b) ++ (drop n b ++ c)
split_at n a b c =
    ap (λ xs. a ++ (xs ++ c)) (sym (take-drop n b)) ∙ regroup a (take n b) (drop n b) c

split_last : (n : ℕ) (a b c : List ℕ) → a ++ (b ++ c) ≡ a ++ ((b ++ take n c) ++ drop n c)
split_last n a b c =
    ap (λ xs. a ++ (b ++ xs)) (sym (take-drop n c))
    ∙ ap (◌++◌ a) (sym (append_assoc b (take n c) (drop n c)))

lt_or_eq : (m n : ℕ) → m ≤ n → (m < n) ⊎ (m ≡ n)
lt_or_eq m n h = ground arith

-- The block after a copy into the first bytes of the part `ys`.
blit-part :
    (mem xs ys zs bs : List ℕ) (i : ℕ)
    → mem ≡ xs ++ (ys ++ zs)
    → i ≡ length xs
    → length bs ≤ length ys
    → blit mem i bs ≡ xs ++ (bs ++ (drop (length bs) ys ++ zs))
blit-part mem xs ys zs bs i e ei h =
    ap (λ m. blit m i bs)
      (e
        ∙ ap (λ us. xs ++ (us ++ zs)) (sym (take-drop (length bs) ys))
        ∙ ap (◌++◌ xs) (append_assoc (take (length bs) ys) (drop (length bs) ys) zs))
    ∙ blit-middle xs (take (length bs) ys) (drop (length bs) ys ++ zs) bs i ei
        (sym (length-take (length bs) ys h))

module _ {mem : List ℕ} (bs : List ℕ) {p_free : ℕ} where
  pub linear_blit :
      (before q after : List ℕ)
      → mem ≡ before ++ (q ++ after)
      → p_free ≡ length before + length q
      → length bs ≤ length after
      → blit mem p_free bs ≡ before ++ ((q ++ bs) ++ drop (length bs) after)
  linear_blit pre q post e ef h =
      blit-part mem (pre ++ q) post [] bs p_free
        (e ∙ sym (append_assoc pre q post) ∙ ap (◌++◌ (pre ++ q)) (sym (append-nil post)))
        (omega (arith, length-append pre q)) h
      ∙ ap (λ xs. (pre ++ q) ++ (bs ++ xs)) (append-nil (drop (length bs) post))
      ∙ append_assoc pre q (bs ++ drop (length bs) post)
      ∙ ap (◌++◌ pre) (sym (append_assoc q bs (drop (length bs) post)))

  wrapped_blit :
      (low gap high : List ℕ)
      → mem ≡ low ++ (gap ++ high)
      → p_free ≡ length low
      → length bs ≤ length gap
      → blit mem p_free bs ≡ (low ++ bs) ++ (drop (length bs) gap ++ high)
  wrapped_blit lo gap hi e ef h =
      blit-part mem lo gap hi bs p_free e ef h
      ∙ sym (append_assoc lo bs (drop (length bs) gap ++ hi))

-- Live bytes are taken from the run at `pBusy`, which is not empty.
pub record Takes (mem : List ℕ) (p_busy p_free busy n : ℕ) (q : List ℕ) : Type 0 where
  pub bytes : take n (drop p_busy mem) ≡ take n q
  pub within : n ≤ length q
  pub rest : Holds mem (advance p_busy n (length mem)) p_free (busy - n) (drop n q)

module _ {mem q : List ℕ} {p_busy p_free busy n : ℕ} where
  linear-Takes :
      (before after : List ℕ)
      → mem ≡ before ++ (q ++ after)
      → p_busy ≡ length before
      → p_free ≡ length before + length q
      → 0 < length after
      → busy ≡ length q
      → n ≤ length q
      → Takes mem p_busy p_free busy n q
  linear-Takes pre post e eb ef hp hb hn = record {
    bytes =
        ap (take n) (ap₂ drop eb e ∙ drop-length_append pre (q ++ post))
        ∙ take-append_of_le n q post hn;
    within = hn;
    rest =
        linear (pre ++ take n q) post (e ∙ split_at n pre q post)
          (ground (arith, lm, lt, length-append pre (take n q)))
          (omega (arith, lt, ld, ef, length-append pre (take n q))) hp (omega (arith, ld, hb));
  }
    where
      lm : length mem ≡ length pre + (length q + length post)
      lm = size_of_parts mem pre q post e

      lt : length (take n q) ≡ n
      lt = length-take n q hn

      ld : length (drop n q) ≡ length q - n
      ld = length-drop n q

  wrapped-Takes :
      (low gap high : List ℕ)
      → mem ≡ low ++ (gap ++ high)
      → q ≡ high ++ low
      → p_busy ≡ length low + length gap
      → p_free ≡ length low
      → busy ≡ length q
      → n < length high
      → Takes mem p_busy p_free busy n q
  wrapped-Takes lo gap hi e eq eb ef hb hn = record {
    bytes =
        ap (take n) (ap₂ drop eb e ∙ drop-two_append lo gap hi)
        ∙ sym (take-append_of_le n hi lo (omega arith))
        ∙ ap (take n) (sym eq);
    within = omega (arith, lq);
    rest =
        wrapped lo (gap ++ take n hi) (drop n hi) (e ∙ split_last n lo gap hi)
          (ap (drop n) eq ∙ drop-append n hi lo (omega arith))
          (ground (arith, lm, lt, length-append gap (take n hi))) ef (omega (arith, ld))
          (omega (arith, length-drop n q, hb));
  }
    where
      lm : length mem ≡ length lo + (length gap + length hi)
      lm = size_of_parts mem lo gap hi e

      lq : length q ≡ length hi + length lo
      lq = ap length eq ∙ length-append hi lo

      lt : length (take n hi) ≡ n
      lt = length-take n hi (omega arith)

      ld : length (drop n hi) ≡ length hi - n
      ld = length-drop n hi

  -- The piece before the end of the block is used up: the next one is at the start.
  last-Takes :
      (low gap high : List ℕ)
      → mem ≡ low ++ (gap ++ high)
      → q ≡ high ++ low
      → p_busy ≡ length low + length gap
      → p_free ≡ length low
      → 0 < length high
      → busy ≡ length q
      → n ≡ length high
      → Takes mem p_busy p_free busy n q
  last-Takes lo gap hi e eq eb ef hp hb hn = record {
    bytes =
        ap (take n) (ap₂ drop eb e ∙ drop-two_append lo gap hi)
        ∙ sym (take-append_of_le n hi lo (omega arith))
        ∙ ap (take n) (sym eq);
    within = omega (arith, lq);
    rest =
        linear [] (gap ++ hi) (e ∙ ap (λ xs. xs ++ (gap ++ hi)) (sym dq)) (ground (arith, lm))
          (omega (arith, ap length dq, ef)) (omega (arith, length-append gap hi))
          (omega (arith, length-drop n q, hb));
  }
    where
      lm : length mem ≡ length lo + (length gap + length hi)
      lm = size_of_parts mem lo gap hi e

      lq : length q ≡ length hi + length lo
      lq = ap length eq ∙ length-append hi lo

      dq : drop n q ≡ lo
      dq = ap₂ drop hn eq ∙ drop-length_append hi lo

pub live_run-Takes :
    (mem q : List ℕ) (p_busy p_free busy n : ℕ)
    → Holds mem p_busy p_free busy q
    → 0 < busy
    → n ≤ live_run p_busy p_free (length mem) busy
    → Takes mem p_busy p_free busy n q
live_run-Takes mem q p_busy p_free busy n (linear pre post e eb ef hp hb) h hn =
    linear-Takes pre post e eb ef hp hb (ground arith)
live_run-Takes mem q p_busy p_free busy n (wrapped lo gap hi e eq eb ef hp hb) h hn =
    elim (lt_or_eq n (length hi) (ground (arith, size_of_parts mem lo gap hi e))) [
      | inl l ↦ wrapped-Takes lo gap hi e eq eb ef hb l
      | inr l ↦ last-Takes lo gap hi e eq eb ef hp hb l
    ]

-- Bytes are put into the run at `pFree`, which is not empty.
pub free_run-Holds :
    (mem q bs : List ℕ) (p_busy p_free busy : ℕ)
    → Holds mem p_busy p_free busy q
    → busy < length mem
    → length bs ≤ free_run p_busy p_free (length mem)
    → Holds
        (blit mem p_free bs)
        p_busy
        (advance p_free (length bs) (length mem))
        (busy + length bs)
        (q ++ bs)
free_run-Holds mem q bs p_busy p_free busy (linear pre post e eb ef hp hb) h hn =
    let lm = size_of_parts mem pre q post e in
    let fits : length bs ≤ length post = ground (arith, lm) in
    elim (lt_or_eq (length bs) (length post) fits) [
      | inl l ↦
          linear pre (drop (length bs) post) (linear_blit bs pre q post e ef fits) eb
            (ground (arith, lm, length-append q bs)) (omega (arith, length-drop (length bs) post))
            (omega (arith, length-append q bs))
      | inr l ↦
          wrapped [] pre (q ++ bs)
            (linear_blit bs pre q post e ef fits
              ∙ ap (λ xs. pre ++ ((q ++ bs) ++ xs)) (drop_all (length bs) post (omega arith))
              ∙ ap (◌++◌ pre) (append-nil (q ++ bs)))
            (sym (append-nil (q ++ bs))) (omega (arith, eb)) (ground (arith, lm))
            (omega (arith, length-append q bs)) (omega (arith, length-append q bs))
    ]
free_run-Holds mem q bs p_busy p_free busy (wrapped lo gap hi e eq eb ef hp hb) h hn =
    let lm = size_of_parts mem lo gap hi e in
    let lq : length q ≡ length hi + length lo = ap length eq ∙ length-append hi lo in
    let fits : length bs ≤ length gap = ground (arith, lm, lq) in
    wrapped (lo ++ bs) (drop (length bs) gap) hi (wrapped_blit bs lo gap hi e ef fits)
      (ap (λ xs. xs ++ bs) eq ∙ append_assoc hi lo bs)
      (omega (arith, length-append lo bs, length-drop (length bs) gap))
      (ground (arith, lm, length-append lo bs)) hp (omega (arith, length-append q bs))

-- A ring that is not empty has a run to take from, and one that is not full a run to fill.
pub live_run-positive :
    (mem q : List ℕ) (p_busy p_free busy : ℕ)
    → Holds mem p_busy p_free busy q
    → 0 < busy
    → 0 < live_run p_busy p_free (length mem) busy
live_run-positive mem q p_busy p_free busy (linear pre post e eb ef hp hb) h =
    ground (arith, size_of_parts mem pre q post e)
live_run-positive mem q p_busy p_free busy (wrapped lo gap hi e eq eb ef hp hb) h =
    ground (arith, size_of_parts mem lo gap hi e)

pub free_run-positive :
    (mem q : List ℕ) (p_busy p_free busy : ℕ)
    → Holds mem p_busy p_free busy q
    → busy < length mem
    → 0 < free_run p_busy p_free (length mem)
free_run-positive mem q p_busy p_free busy (linear pre post e eb ef hp hb) h =
    ground (arith, size_of_parts mem pre q post e)
free_run-positive mem q p_busy p_free busy (wrapped lo gap hi e eq eb ef hp hb) h =
    ground (arith, size_of_parts mem lo gap hi e, ap length eq, length-append hi lo)

-- The run to fill ends within the block.
pub free_run-le :
    (mem q : List ℕ) (p_busy p_free busy : ℕ)
    → Holds mem p_busy p_free busy q
    → p_free + free_run p_busy p_free (length mem) ≤ length mem
free_run-le mem q p_busy p_free busy (linear pre post e eb ef hp hb) =
    ground (arith, size_of_parts mem pre q post e)
free_run-le mem q p_busy p_free busy (wrapped lo gap hi e eq eb ef hp hb) =
    ground (arith, size_of_parts mem lo gap hi e)

pub busy-le :
    {mem q : List ℕ} {p_busy p_free busy : ℕ} → Holds mem p_busy p_free busy q → busy ≤ length mem
busy-le {mem} {q} (linear pre post e eb ef hp hb) = omega (arith, size_of_parts mem pre q post e)
busy-le {mem} (wrapped lo gap hi e eq eb ef hp hb) =
    omega (arith, size_of_parts mem lo gap hi e, ap length eq, length-append hi lo)

pub p_busy-lt :
    {mem q : List ℕ} {p_busy p_free busy : ℕ} → Holds mem p_busy p_free busy q → p_busy < length mem
p_busy-lt {mem} {q} (linear pre post e eb ef hp hb) = omega (arith, size_of_parts mem pre q post e)
p_busy-lt {mem} (wrapped lo gap hi e eq eb ef hp hb) = omega (arith, size_of_parts mem lo gap hi e)
