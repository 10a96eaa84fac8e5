-- ===== src/Driver/Output/Flush.antt =====
-- The bytes that waited in insertData, and the copy without a filter, as parts of the stream of
-- `Room` (com0com/sys/bufutils.c).
use com0com.Base.{
  ℕ, ◌+◌, ◌-◌, ◌≤◌, true, false, List, [], ◌++◌, length, take, drop, min, ltb, if◌then◌else◌, ◌≡◌,
  ◌⊎◌, inl, inr, refl, sym, ap, ap₂, subst, ◌∙◌, arith, append-nil, length-append, length-take,
  length-drop, Bool-cases, lt_or_ge, take-add, drop-take, ◌==◌,
}
use com0com.Driver.RawData.{
  raw_size, IsRaw, kept, kept-length, compact_raw_data, compact_raw_data-Compacts,
}
use com0com.Driver.Output.{Out, flush_insert, copy_plain}
use com0com.Driver.Output.Room.{delivered, Fits, Puts, Puts-nil, Puts-append, in_room}

-- The waiting bytes come first, in the empty output.
flush_some :
    (o : Out) (n k : ℕ)
    → o.null ≡ false
    → IsRaw o.insert
    → o.out ≡ []
    → n ≡ min o.insert.size o.room
    → o.insert.size + k ≤ raw_size + o.room
    → Puts o [] k (record o {
      room = o.room - n;
      out = o.out ++ take n o.insert.bytes;
      done = o.done + n;
      insert = compact_raw_data o.insert n;
    })
flush_some o n k nl w e en h =
    let hn : n ≤ o.insert.size = ground arith in
    let hr : n ≤ o.room = ground arith in
    let c = compact_raw_data-Compacts o.insert n w hn in
    let m : o.insert.size ≡ n + (o.insert.size - n) = omega arith in
    let lk = kept-length o.insert w in
    let sz : (compact_raw_data o.insert n).size ≡ o.insert.size - n = omega (
      arith,
      kept-length (compact_raw_data o.insert n) c.raw,
      ap length c.keeps,
      length-drop n (kept o.insert),
      lk,
    ) in
    record {
      fits = record {
        real = nl;
        raw = c.raw;
        place = ground (arith, sz);
        space = omega (arith, sz);
      };
      says =
          ap₂ (◌++◌) {x = o.out ++ take n o.insert.bytes} (ap (λ xs. xs ++ take n o.insert.bytes) e)
            c.keeps
          ∙ ap (λ i. take n o.insert.bytes ++ drop n (take i o.insert.bytes)) m
          ∙ ap (◌++◌ (take n o.insert.bytes)) (drop-take n (o.insert.size - n) o.insert.bytes)
          ∙ sym (take-add n (o.insert.size - n) o.insert.bytes)
          ∙ ap (λ i. take i o.insert.bytes) (sym m)
          ∙ ap (λ xs. xs ++ kept o.insert) (sym e)
          ∙ sym (append-nil (delivered o));
      filled = omega (
        arith,
        length-append o.out (take n o.insert.bytes),
        length-take n o.insert.bytes (omega (arith, w.array, w.fits)),
      );
      counted = omega arith;
    }

flush_insert-some :
    (o : Out)
    → o.null ≡ false
    → 1 ≤ o.insert.size
    → 1 ≤ o.room
    → flush_insert o ≡ record o {
      room = o.room - min o.insert.size o.room;
      out = o.out ++ take (min o.insert.size o.room) o.insert.bytes;
      done = o.done + min o.insert.size o.room;
      insert = compact_raw_data o.insert (min o.insert.size o.room);
    }
unfolding flush_insert
flush_insert-some o n h hr =
    let c : (o.insert.size == 0) ≡ false = ground arith in
    let d : (o.room == 0) ≡ false = ground arith in rw (n, c, d) refl

flush_insert-none :
    (o : Out) → o.null ≡ false → (o.insert.size ≡ 0) ⊎ (o.room ≡ 0) → flush_insert o ≡ o
unfolding flush_insert
flush_insert-none o n (inl h) = let c : (o.insert.size == 0) ≡ true = ground arith in rw (c) refl
flush_insert-none o n (inr h) =
    let d : (o.room == 0) ≡ true = ground arith in
    elim (Bool-cases (o.insert.size == 0)) [ inl c ↦ rw (c) refl | inr c ↦ rw (n, c, d) refl ]

-- After the waiting bytes, nothing waits or there is no room; nothing is lost.
pub flush_insert-Puts :
    (o : Out) (k : ℕ)
    → o.null ≡ false
    → IsRaw o.insert
    → o.out ≡ []
    → o.insert.size + k ≤ raw_size + o.room
    → Puts o [] k (flush_insert o)
flush_insert-Puts o k n w e h =
    let idle : (o.insert.size ≡ 0) ⊎ (o.room ≡ 0) → Puts o [] k (flush_insert o) = λ z.
      subst (Puts o [] k) (sym (flush_insert-none o n z))
        (Puts-nil o k (record { real = n; raw = w; place = z; space = h })) in
    elim (lt_or_ge 0 o.insert.size) [
      | inr z ↦ idle (inl (omega arith))
      | inl z ↦ elim (lt_or_ge 0 o.room) [
        | inr r ↦ idle (inr (omega arith))
        | inl r ↦
            subst (Puts o [] k) (sym (flush_insert-some o n (omega arith) (omega arith)))
              (flush_some o (min o.insert.size o.room) k n w e refl h)
      ]
    ]

-- The copy without a filter: as much as there is room for.
pub record Copied (o : Out) (write : List ℕ) (res : Out × ℕ) : Type 0 where
  pub puts : Puts o (take res.1 write) 0 res.0
  pub at_most : res.1 ≤ length write
  pub stops : (res.1 ≡ length write) ⊎ (res.0.room ≡ 0)

plain-Copied :
    (o : Out) (write : List ℕ) (n : ℕ)
    → Fits o 0
    → n ≤ length write
    → n ≤ o.room
    → (n ≡ length write) ⊎ (n ≡ o.room)
    → (o.insert.size ≡ 0) ⊎ (o.room ≡ 0)
    → Copied o write
        (record o { room = o.room - n; out = o.out ++ take n write; done = o.done + n }, n)
plain-Copied o write n f hw hr st pl =
    let t : length (take n write) ≡ n = length-take n write hw in
    let g : Fits o (length (take n write) + 0) = record {
      real = f.real;
      raw = f.raw;
      place = pl;
      space = elim pl [ inl e ↦ omega (arith, t, hr) | inr e ↦ omega (arith, t, hr, f.space) ];
    } in
    record {
      puts =
          subst
            (λ (m : ℕ).
              Puts o (take n write) 0
                (record o { room = o.room - m; out = o.out ++ take n write; done = o.done + m }))
            t (in_room o (take n write) 0 g (omega (arith, t)));
      at_most = hw;
      stops = elim st [ inl e ↦ inl e | inr e ↦ inr (omega arith) ];
    }

Copied-after :
    (o o' : Out) (write : List ℕ) (res : Out × ℕ)
    → Puts o [] 0 o'
    → Copied o' write res
    → Copied o write res
Copied-after o o' write res p c = record {
  puts = Puts-append [] (take res.1 write) 0 0 p c.puts;
  at_most = c.at_most;
  stops = c.stops;
}

pub copy_plain-Copied :
    (o : Out) (write : List ℕ)
    → o.null ≡ false
    → IsRaw o.insert
    → o.out ≡ []
    → Copied o write (copy_plain o write)
unfolding copy_plain
copy_plain-Copied o write z w e =
    let p = flush_insert-Puts o 0 z w e (omega (arith, w.fits)) in
    let o' = flush_insert o in
    let n = if ltb (length write) o'.room then length write else o'.room in
    let hw : n ≤ length write = ground arith in
    let hr : n ≤ o'.room = ground arith in
    let st : (n ≡ length write) ⊎ (n ≡ o'.room) = ground arith in
    Copied-after o o' write _ p (plain-Copied o' write n p.fits hw hr st p.fits.place)
