-- ===== src/Com2tcp/Stream/Puts.antt =====
-- PutData of com2tcp/utils.cxx puts the bytes behind those that the stream holds.
use com0com.Base.{
  ℕ, zero, suc, ◌+◌, ◌-◌, ◌*◌, ◌≤◌, ◌<◌, false, ◌&&◌, nonzero, List, [], ◌∷◌, ◌++◌, ltb, Option,
  none, some, length, take, drop, ◌≡◌, refl, sym, ap, ◌∙◌, subst, arith, inl, inr, Bool-cases,
  append_assoc, append-nil, length-append, take-drop, length-drop, length-take, drop-append,
}
use com0com.Com2tcp.Stream.{
  ChunkStream, chunk_size, new_chunk, min, chunk_write, write_last, with_chunk, put_loop,
  DataStream, put_data, is_full,
}

-- What is left to read.
abbrev pub content : List ChunkStream → List ℕ
content [] = []
content (c ∷ cs) = drop c.first c.stored ++ content cs

abbrev pub Fits : ChunkStream → Type 0
Fits c = (c.first ≤ length c.stored) × (length c.stored ≤ chunk_size)

-- All chunks but the last are full.
abbrev pub WellFormed : List ChunkStream → Type 0
WellFormed [] = Unit {0}
WellFormed (c ∷ []) = Fits c
WellFormed (c ∷ d ∷ cs) = Fits c × (length c.stored ≡ chunk_size) × WellFormed (d ∷ cs)

-- A write into the last chunk: it is full, or a part of the bytes goes in.
abbrev Write : List ℕ → List ChunkStream → Option (ℕ × List ChunkStream) → Type 0
Write bs q none = WellFormed (q ++ new_chunk ∷ [])
Write bs q (some (n, r)) =
    (1 ≤ n) × (n ≤ length bs) × (content r ≡ content q ++ take n bs) × WellFormed r

chunk_write-room :
    (b : ℕ) (bs : List ℕ) (c : ChunkStream)
    → length c.stored < chunk_size
    → (n : ℕ) × ((1 ≤ n)
        × (n ≤ suc (length bs))
        × (n + length c.stored ≤ chunk_size)
        × (chunk_write (b ∷ bs) c ≡ some (n, record c { stored = c.stored ++ take n (b ∷ bs) })))
unfolding chunk_write
chunk_write-room b bs c h =
    let n = min (chunk_size - length c.stored) (suc (length bs)) in
    (n, (ground arith, ground arith, ground arith, ground arith))

chunk_write-full :
    (bs : List ℕ) (c : ChunkStream) → length c.stored ≡ chunk_size → chunk_write bs c ≡ none
unfolding chunk_write
chunk_write-full bs c h = ground arith

content-written :
    (c : ChunkStream) (bs : List ℕ)
    → c.first ≤ length c.stored
    → content (record c { stored = c.stored ++ bs } ∷ []) ≡ content (c ∷ []) ++ bs
content-written c bs h =
    append-nil (drop c.first (c.stored ++ bs))
    ∙ drop-append c.first c.stored bs h
    ∙ ap (λ l. l ++ bs) (sym (append-nil (drop c.first c.stored)))

abbrev alone : Option (ℕ × ChunkStream) → Option (ℕ × List ChunkStream)
alone o = elim o [ none ↦ none | some (n, d) ↦ some (n, d ∷ []) ]

write_last-one :
    (b : ℕ) (bs : List ℕ) (c : ChunkStream)
    → Fits c
    → Write (b ∷ bs) (c ∷ []) (write_last (b ∷ bs) (c ∷ []))
unfolding write_last
write_last-one b bs c (f, s) = elim (Bool-cases (ltb (length c.stored) chunk_size)) [
  | inl h ↦
      let (n, (p, l, t, e)) = chunk_write-room b bs c (ground arith) in
      let g : length (c.stored ++ take n (b ∷ bs)) ≡ length c.stored + n =
        length-append c.stored (take n (b ∷ bs))
        ∙ ap (λ k. length c.stored + k) (length-take n (b ∷ bs) l) in
      subst (λ o. Write (b ∷ bs) (c ∷ []) (alone o)) (sym e)
        (p, l, content-written c (take n (b ∷ bs)) f, (omega (arith, g, f), omega (arith, g, t)))
  | inr h ↦
      let g : length c.stored ≡ chunk_size = ground arith in
      subst (λ o. Write (b ∷ bs) (c ∷ []) (alone o)) (sym (chunk_write-full (b ∷ bs) c g))
        ((f, s), g, (omega arith, omega arith))
]

pub WellFormed-cons :
    (c : ChunkStream) (q : List ChunkStream)
    → Fits c
    → length c.stored ≡ chunk_size
    → WellFormed q
    → WellFormed (c ∷ q)
WellFormed-cons c [] f e w = f
WellFormed-cons c (d ∷ cs) f e w = (f, e, w)

Write-cons :
    (bs : List ℕ) (c d : ChunkStream) (cs : List ChunkStream) (o : Option (ℕ × List ChunkStream))
    → Fits c
    → length c.stored ≡ chunk_size
    → Write bs (d ∷ cs) o
    → Write bs (c ∷ d ∷ cs) (elim o [ none ↦ none | some (n, q) ↦ some (n, c ∷ q) ])
Write-cons bs c d cs none f e w = (f, e, w)
Write-cons bs c d cs (some (n, r)) f e (p, l, t, w) = (
  p,
  l,
  ap (◌++◌ (drop c.first c.stored)) t
      ∙ sym (append_assoc (drop c.first c.stored) (content (d ∷ cs)) (take n bs)),
  WellFormed-cons c r f e w,
)

write_last-Write :
    (b : ℕ) (bs : List ℕ) (c : ChunkStream) (cs : List ChunkStream)
    → WellFormed (c ∷ cs)
    → Write (b ∷ bs) (c ∷ cs) (write_last (b ∷ bs) (c ∷ cs))
unfolding write_last
write_last-Write b bs c [] w = write_last-one b bs c w
write_last-Write b bs c (d ∷ cs) (f, e, w) =
    Write-cons (b ∷ bs) c d cs (write_last (b ∷ bs) (d ∷ cs)) f e (write_last-Write b bs d cs w)

-- One round more is needed where the last chunk is full.
abbrev stuck : Option (ℕ × List ChunkStream) → ℕ
stuck none = 1
stuck (some p) = 0

stuck-cons :
    (c : ChunkStream) (o : Option (ℕ × List ChunkStream))
    → stuck (elim o [ none ↦ none | some (n, q) ↦ some (n, c ∷ q) ]) ≡ stuck o
stuck-cons c none = refl
stuck-cons c (some (n, q)) = refl

stuck-new :
    (b : ℕ) (bs : List ℕ) (c : ChunkStream) (cs : List ChunkStream)
    → stuck (write_last (b ∷ bs) (c ∷ (cs ++ new_chunk ∷ []))) ≡ 0
unfolding write_last chunk_write
stuck-new b bs c [] = refl
stuck-new b bs c (d ∷ cs) = stuck-cons c _ ∙ stuck-new b bs d cs

-- What the loop leaves.
abbrev pub Puts : List ℕ → List ChunkStream → Option (List ChunkStream) → Type 0
Puts bs q none = ⊥
Puts bs q (some r) = (content r ≡ content q ++ bs) × WellFormed r

abbrev put_rest :
    ℕ → ℕ → List ℕ → List ChunkStream → Option (ℕ × List ChunkStream) → Option (List ChunkStream)
put_rest k b bs q o = elim o [
  | none ↦ put_loop k (b ∷ bs) (q ++ new_chunk ∷ [])
  | some (n, r) ↦ put_loop k (drop n (b ∷ bs)) r
]

-- The fuel that is enough.
abbrev Enough : ℕ → List ℕ → List ChunkStream → Type 0
Enough k [] q = 0 < k
Enough k (b ∷ bs) q = stuck (write_last (b ∷ bs) (with_chunk q)) + (2 * suc (length bs)) < k

content-new : (q : List ChunkStream) → content (q ++ new_chunk ∷ []) ≡ content q
content-new [] = refl
content-new (c ∷ cs) = ap (◌++◌ (drop c.first c.stored)) (content-new cs)

stuck-le : (o : Option (ℕ × List ChunkStream)) → stuck o ≤ 1
stuck-le none = omega arith
stuck-le (some p) = omega arith

Enough-less : (k : ℕ) (bs : List ℕ) (q : List ChunkStream) → 1 + 2 * length bs < k → Enough k bs q
Enough-less k [] q h = omega (arith, h)
Enough-less k (b ∷ bs) q h = omega (arith, h, stuck-le (write_last (b ∷ bs) (with_chunk q)))

Puts-ext :
    (bs : List ℕ) (q r : List ChunkStream) (o : Option (List ChunkStream))
    → content q ≡ content r
    → Puts bs q o
    → Puts bs r o
Puts-ext bs q r none e h = h
Puts-ext bs q r (some s) e (h, w) = (h ∙ ap (λ l. l ++ bs) e, w)

Puts-part :
    (n : ℕ) (bs : List ℕ) (q r : List ChunkStream) (o : Option (List ChunkStream))
    → content r ≡ content q ++ take n bs
    → Puts (drop n bs) r o
    → Puts bs q o
Puts-part n bs q r none e h = h
Puts-part n bs q r (some s) e (h, w) = (
  h
      ∙ ap (λ l. l ++ drop n bs) e
      ∙ append_assoc (content q) (take n bs) (drop n bs)
      ∙ ap (◌++◌ (content q)) (take-drop n bs),
  w,
)

put_rest-Puts :
    (k b : ℕ) (bs : List ℕ) (c : ChunkStream) (cs : List ChunkStream)
    → (o : Option (ℕ × List ChunkStream)) → Write (b ∷ bs) (c ∷ cs) o
    → ((xs : List ℕ) (r : List ChunkStream)
        → WellFormed r
        → Enough k xs r
        → Puts xs r (put_loop k xs r))
    → stuck o + (2 * suc (length bs)) < suc k
    → Puts (b ∷ bs) (c ∷ cs) (put_rest k b bs (c ∷ cs) o)
put_rest-Puts k b bs c cs none v ih h =
    let q = c ∷ (cs ++ new_chunk ∷ []) in
    let e : Enough k (b ∷ bs) q = omega (arith, h, stuck-new b bs c cs) in
    Puts-ext (b ∷ bs) q (c ∷ cs) (put_loop k (b ∷ bs) q) (content-new (c ∷ cs)) (ih (b ∷ bs) q v e)
put_rest-Puts k b bs c cs (some (n, r)) (p, l, t, w) ih h =
    let e : Enough k (drop n (b ∷ bs)) r =
      Enough-less k (drop n (b ∷ bs)) r (omega (arith, h, p, length-drop n (b ∷ bs))) in
    Puts-part n (b ∷ bs) (c ∷ cs) r (put_loop k (drop n (b ∷ bs)) r) t (ih (drop n (b ∷ bs)) r w e)

put_loop-Puts :
    (k : ℕ) (bs : List ℕ) (q : List ChunkStream)
    → WellFormed q
    → Enough k bs q
    → Puts bs q (put_loop k bs q)
unfolding put_loop
put_loop-Puts zero [] q w h = absurd (omega (arith, h))
put_loop-Puts zero (b ∷ bs) q w h = absurd (omega (arith, h))
put_loop-Puts (suc k) [] q w h = (sym (append-nil (content q)), w)
put_loop-Puts (suc k) (b ∷ bs) [] w h = Puts-ext (b ∷ bs) (new_chunk ∷ []) [] _ refl (
    put_rest-Puts k b bs new_chunk [] (write_last (b ∷ bs) (new_chunk ∷ []))
      (write_last-Write b bs new_chunk [] (omega arith, omega arith))
      (λ xs r v g. put_loop-Puts k xs r v g) h)
put_loop-Puts (suc k) (b ∷ bs) (c ∷ cs) w h =
    put_rest-Puts k b bs c cs (write_last (b ∷ bs) (c ∷ cs)) (write_last-Write b bs c cs w)
      (λ xs r v g. put_loop-Puts k xs r v g) h

put_loop-content :
    (bs : List ℕ) (q : List ChunkStream)
    → WellFormed q
    → Puts bs q (put_loop (2 + 2 * length bs) bs q)
put_loop-content bs q w =
    put_loop-Puts (2 + 2 * length bs) bs q w (Enough-less (2 + 2 * length bs) bs q (omega arith))

-- The chunks are well formed and `busy` counts the bytes that are left to read.
abbrev pub Counted : DataStream → Type 0
Counted s = WellFormed s.buf_q × (s.busy ≡ length (content s.buf_q))

-- All bytes were taken, and stand behind those that the stream held.
abbrev pub Appended : List ℕ → DataStream → Option (Option ℕ × DataStream) → Type 0
Appended bs s none = ⊥
Appended bs s (some (n, t)) =
    (n ≡ some (length bs))
    × (content t.buf_q ≡ content s.buf_q ++ bs)
    × (is_full t ≡ (nonzero s.threshold && ltb s.threshold (s.busy + length bs)))
    × Counted t

put_rest-Appended :
    (bs : List ℕ) (s : DataStream) (o : Option (List ChunkStream))
    → s.busy ≡ length (content s.buf_q)
    → Puts bs s.buf_q o
    → Appended bs s (elim o [
      | none ↦ none
      | some q ↦ some (some (length bs), record s { buf_q = q; busy = s.busy + length bs })
    ])
unfolding is_full
put_rest-Appended bs s none e h = h
put_rest-Appended bs s (some q) e (h, w) = (
  refl,
  h,
  refl,
  (w, ap (λ n. n + length bs) e ∙ sym (length-append (content s.buf_q) bs) ∙ ap length (sym h)),
)

-- `PutData` on a stream that has not come to its end: the loop ends, all bytes are taken and stand
-- behind those that the stream held, in their order, and `busy` counts them.
pub put_data-Appended :
    (bs : List ℕ) (s : DataStream) → s.eof ≡ false → Counted s → Appended bs s (put_data bs s)
unfolding put_data
put_data-Appended bs s e (w, c) =
    rw (e, put_data)
      (put_rest-Appended bs s (put_loop (2 + 2 * length bs) bs s.buf_q) c
        (put_loop-content bs s.buf_q w))
