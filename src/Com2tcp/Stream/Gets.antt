-- ===== src/Com2tcp/Stream/Gets.antt =====
-- GetData of com2tcp/utils.cxx takes the first bytes that the stream holds.
use com0com.Base.{
  ℕ, zero, suc, ◌+◌, ◌-◌, ◌≤◌, ◌<◌, Bool, true, false, ◌&&◌, List, [], ◌∷◌, ◌++◌, ◌==◌,
  if◌then◌else◌, Option, none, some, length, take, drop, ◌≡◌, refl, sym, ap, ap₂, ◌∙◌, subst, arith,
  inl, inr, length-append, take-add, take-drop, length-drop, length-take, drop-append, drop-drop,
  drop_all, take_all, take-append_of_le, lt_or_ge, length_zero,
}
use com0com.Com2tcp.Stream.{
  ChunkStream, chunk_size, min, chunk_read, bytes_then, get_loop, DataStream, get_data, put_data,
}
use com0com.Com2tcp.Stream.Puts.{content, Fits, WellFormed, Counted, Appended, put_data-Appended}

-- What the loop takes, and what it leaves.
abbrev Gets : ℕ → List ℕ → Option (List ℕ × List ChunkStream) → Type 0
Gets n xs none = ⊥
Gets n xs (some r) = (r.0 ≡ take n xs) × (content r.1 ≡ drop n xs) × WellFormed r.1

head-Fits : (c : ChunkStream) (cs : List ChunkStream) → WellFormed (c ∷ cs) → Fits c
head-Fits c [] w = w
head-Fits c (d ∷ cs) w = w.0

tail-WellFormed : (c : ChunkStream) (cs : List ChunkStream) → WellFormed (c ∷ cs) → WellFormed cs
tail-WellFormed c [] w = tt
tail-WellFormed c (d ∷ cs) w = w.2

-- A chunk that is not full is the last.
last-full :
    (c : ChunkStream) (cs : List ChunkStream)
    → WellFormed (c ∷ cs)
    → length c.stored < chunk_size
    → cs ≡ []
last-full c [] w h = refl
last-full c (d ∷ cs) w h = absurd (omega (arith, w.1, h))

advanced-WellFormed :
    (c : ChunkStream) (cs : List ChunkStream) (l : ℕ)
    → WellFormed (c ∷ cs)
    → c.first + l ≤ length c.stored
    → WellFormed (record c { first = c.first + l } ∷ cs)
advanced-WellFormed c [] l w h = (h, w.1)
advanced-WellFormed c (d ∷ cs) l w h = ((h, w.0.1), w.1, w.2)

Gets-then :
    (n l : ℕ) (ys xs : List ℕ) (o : Option (List ℕ × List ChunkStream))
    → l ≤ n
    → ys ≡ take l xs
    → Gets (n - l) (drop l xs) o
    → Gets n xs (bytes_then ys o)
Gets-then n l ys xs none h e g = g
Gets-then n l ys xs (some r) h e (t, c, w) =
    let s : l + (n - l) ≡ n = omega arith in
    (
      ap₂ (◌++◌) e t ∙ sym (take-add l (n - l) xs) ∙ ap (λ k. take k xs) s,
      c ∙ drop-drop l (n - l) xs ∙ ap (λ k. drop k xs) s,
      w,
    )

chunk_read-spent : (n : ℕ) (c : ChunkStream) → c.first ≡ chunk_size → chunk_read n c ≡ none
unfolding chunk_read
chunk_read-spent n c h = let e : (c.first == chunk_size) ≡ true = ground arith in rw (e) refl

chunk_read-live :
    (n l : ℕ) (c : ChunkStream)
    → c.first < chunk_size
    → min (length c.stored - c.first) n ≡ l
    → chunk_read n c ≡ some (take l (drop c.first c.stored), record c { first = c.first + l })
unfolding chunk_read
chunk_read-live n l c h m =
    let e : (c.first == chunk_size) ≡ false = ground arith in
    let f : ℕ → Option (List ℕ × ChunkStream) =
      λ j. some (take j (drop c.first c.stored), record c { first = c.first + j }) in
    rw (e) (ap f m)

module _ (k n : ℕ) (c : ChunkStream) (cs : List ChunkStream) where
  abbrev dry_or_read : List ℕ → ChunkStream → Bool → ℕ → Option (List ℕ × List ChunkStream)
  dry_or_read xs d b m =
      if b then some ([], d ∷ cs) else bytes_then xs (get_loop k (suc n - m) (d ∷ cs))

  abbrev round : Option (List ℕ × ChunkStream) → Option (List ℕ × List ChunkStream)
  round o = elim o [
    | none ↦ get_loop k (suc n) cs
    | some (xs, d) ↦ dry_or_read xs d (length xs == 0) (length xs)
  ]

  get_loop-round : get_loop (suc k) (suc n) (c ∷ cs) ≡ round (chunk_read (suc n) c)
  unfolding get_loop
  get_loop-round = refl

  -- A round of the loop with a chunk from which `l` bytes are read.
  get_loop-live :
      (l : ℕ)
      → c.first < chunk_size
      → c.first ≤ length c.stored
      → min (length c.stored - c.first) (suc n) ≡ l
      → get_loop (suc k) (suc n) (c ∷ cs)
        ≡ dry_or_read (take l (drop c.first c.stored)) (record c { first = c.first + l }) (l == 0) l
  get_loop-live l h hf m =
      let t : length (take l (drop c.first c.stored)) ≡ l =
        length-take l (drop c.first c.stored) (ground (arith, length-drop c.first c.stored)) in
      get_loop-round
      ∙ ap round (chunk_read-live (suc n) l c h m)
      ∙ ap
          (λ (j : ℕ).
            dry_or_read (take l (drop c.first c.stored)) (record c { first = c.first + l }) (j == 0)
              j)
          t

get_loop-Gets :
    (k n : ℕ) (q : List ChunkStream)
    → WellFormed q
    → n + length q < k
    → Gets n (content q) (get_loop k n q)
unfolding get_loop
get_loop-Gets zero n q w h = absurd (omega arith)
get_loop-Gets (suc k) zero q w h = (refl, refl, w)
get_loop-Gets (suc k) (suc n) [] w h = (refl, refl, w)
get_loop-Gets (suc k) (suc n) (c ∷ cs) w h =
    let f = head-Fits c cs w in
    elim (lt_or_ge c.first chunk_size) [
      | inr e ↦
          let z : drop c.first c.stored ≡ [] = drop_all c.first c.stored (omega (arith, f.1, e)) in
          subst (Gets (suc n) (content (c ∷ cs)))
            (sym (
              get_loop-round k n c cs
              ∙ ap (round k n c cs) (chunk_read-spent (suc n) c (omega (arith, f.0, f.1, e)))))
            (subst (λ (xs : List ℕ). Gets (suc n) (xs ++ content cs) (get_loop k (suc n) cs))
              (sym z) (get_loop-Gets k (suc n) cs (tail-WellFormed c cs w) (omega arith)))
      | inl e ↦ elim (lt_or_ge c.first (length c.stored)) [
        | inr d ↦
            let m : min (length c.stored - c.first) (suc n) ≡ 0 = ground arith in
            let y = last-full c cs w (omega (arith, d, e)) in
            let z : content (c ∷ cs) ≡ [] =
              ap₂ (◌++◌) (drop_all c.first c.stored d) (ap content y) in
            let z' : content (record c { first = c.first + 0 } ∷ cs) ≡ [] =
              ap₂ (◌++◌) (drop_all (c.first + 0) c.stored (omega (arith, d))) (ap content y) in
            subst (Gets (suc n) (content (c ∷ cs))) (sym (get_loop-live k n c cs 0 e f.0 m)) (
              subst
                (λ (xs : List ℕ).
                  Gets (suc n) xs (some ([], record c { first = c.first + 0 } ∷ cs)))
                (sym z) (refl, z', advanced-WellFormed c cs 0 w (omega (arith, f.0))))
        | inl d ↦
            let l = min (length c.stored - c.first) (suc n) in
            let hl : l ≤ suc n = ground arith in
            let pos : 1 ≤ l = ground arith in
            let lr : c.first + l ≤ length c.stored = ground arith in
            let le : l ≤ length (drop c.first c.stored) =
              omega (arith, length-drop c.first c.stored, lr) in
            let t : (l == 0) ≡ false = ground arith in
            let c' : ChunkStream = record c { first = c.first + l } in
            let ys = take l (drop c.first c.stored) in
            let rest = get_loop k (suc n - l) (c' ∷ cs) in
            let step : content (c' ∷ cs) ≡ drop l (content (c ∷ cs)) =
              ap (λ xs. xs ++ content cs) (sym (drop-drop c.first l c.stored))
              ∙ sym (drop-append l (drop c.first c.stored) (content cs) le) in
            subst (Gets (suc n) (content (c ∷ cs)))
              (sym (
                get_loop-live k n c cs l e f.0 refl
                ∙ ap (λ (b : Bool). dry_or_read k n c cs ys c' b l) t))
              (Gets-then (suc n) l ys (content (c ∷ cs)) rest hl
                (sym (take-append_of_le l (drop c.first c.stored) (content cs) le))
                (subst (λ (xs : List ℕ). Gets (suc n - l) xs rest) step
                  (get_loop-Gets k (suc n - l) (c' ∷ cs) (advanced-WellFormed c cs l w lr)
                    (omega (arith, pos, hl, h)))))
      ]
    ]

-- The first bytes were taken, as many as were asked for or as there are; with none there, the end of
-- the stream is told apart from a stream that is only empty.
abbrev pub Taken : ℕ → List ℕ → Bool → Option (Option (List ℕ) × DataStream) → Type 0
Taken n xs eof none = ⊥
Taken n xs eof (some (o, t)) =
    (o ≡ (if (length xs == 0) && eof then none else some (take n xs)))
    × (content t.buf_q ≡ drop n xs)
    × (t.eof ≡ eof)
    × Counted t

empty-Taken :
    (n : ℕ) (s : DataStream)
    → Counted s
    → content s.buf_q ≡ []
    → Taken n (content s.buf_q) s.eof (some (if s.eof then none else some [], s))
empty-Taken n s w z =
    let o : List ℕ → Option (List ℕ) =
      λ xs. if (length xs == 0) && s.eof then none else some (take n xs) in
    let e : List ℕ → Option (List ℕ) = λ ys. if s.eof then none else some ys in
    (
      ap e (sym (take_all n [] (omega arith))) ∙ ap o (sym z),
      z ∙ sym (drop_all n [] (omega arith)) ∙ ap (drop n) (sym z),
      refl,
      w,
    )

got-Taken :
    (n : ℕ) (s : DataStream) (o : Option (List ℕ × List ChunkStream))
    → Counted s
    → 0 < length (content s.buf_q)
    → Gets n (content s.buf_q) o
    → Taken n (content s.buf_q) s.eof (elim o [
      | none ↦ none
      | some (xs, q) ↦ some (some xs, record s { buf_q = q; busy = s.busy - length xs })
    ])
got-Taken n s none w h g = g
got-Taken n s (some (xs, q)) (w, c) h (t, r, v) =
    let ys = content s.buf_q in
    let e : (length ys == 0) ≡ false = ground arith in
    let k : length (take n ys) + length (drop n ys) ≡ length ys =
      sym (length-append (take n ys) (drop n ys)) ∙ ap length (take-drop n ys) in
    let u : Option (List ℕ) = if false && s.eof then none else some (take n ys) in
    (
      ap some t ∙ ap (λ (b : Bool). if b && s.eof then none else some (take n ys)) (sym e),
      r,
      refl,
      (v, omega (arith, c, k, ap length t, ap length r)),
    )

-- `GetData` on a stream that counts its bytes: the loop ends, the first bytes that the stream held
-- are taken in their order, the others stay, and `busy` counts them; -1 stands for the end of an
-- empty stream.
pub get_data-Taken :
    (n : ℕ) (s : DataStream) → Counted s → Taken n (content s.buf_q) s.eof (get_data n s)
unfolding get_data
get_data-Taken n s (w, c) = elim (lt_or_ge 0 s.busy) [
  | inl h ↦
      let e : (s.busy == 0) ≡ false = ground arith in
      rw (e) (
        got-Taken n s (get_loop (1 + (n + length s.buf_q)) n s.buf_q) (w, c) (omega (arith, c, h))
          (get_loop-Gets (1 + (n + length s.buf_q)) n s.buf_q w (omega arith)))
  | inr h ↦
      let e : (s.busy == 0) ≡ true = ground arith in
      rw (e) (empty-Taken n s (w, c) (length_zero (content s.buf_q) (omega (arith, c, h))))
]

-- What a reader gets of a stream that the given bytes are put into first.
abbrev pub PutThenGot : List ℕ → DataStream → Option (Option ℕ × DataStream) → Type 0
PutThenGot bs s none = ⊥
PutThenGot bs s (some (n, t)) =
    Taken (length (content s.buf_q ++ bs)) (content s.buf_q ++ bs) t.eof
      (get_data (length (content s.buf_q ++ bs)) t)

PutThenGot-Appended :
    (bs : List ℕ) (s : DataStream) (o : Option (Option ℕ × DataStream))
    → Appended bs s o
    → PutThenGot bs s o
PutThenGot-Appended bs s none h = h
PutThenGot-Appended bs s (some (n, t)) (a, e, f, w) =
    let m = length (content s.buf_q ++ bs) in
    subst (λ (xs : List ℕ). Taken m xs t.eof (get_data m t)) e (get_data-Taken m t w)

-- `PutData` and then `GetData` on a stream that has not come to its end: all that the stream held
-- comes out, followed by the bytes put, however the chunks divide them.
pub put_data-get_data :
    (bs : List ℕ) (s : DataStream) → s.eof ≡ false → Counted s → PutThenGot bs s (put_data bs s)
put_data-get_data bs s e w = PutThenGot-Appended bs s (put_data bs s) (put_data-Appended bs s e w)
