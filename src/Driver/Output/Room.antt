-- ===== src/Driver/Output/Room.antt =====
-- The two places of `Output` as one stream: what a put adds to it, and when it fits.
use com0com.Base.{
  ℕ, ◌+◌, ◌-◌, ◌≤◌, ◌<◌, true, false, List, [], ◌∷◌, ◌++◌, length, take, drop, min, ◌≡◌, ◌⊎◌, inl,
  inr, refl, sym, ap, subst, ◌∙◌, arith, append_assoc, append-nil, length-append, length-take,
  length-drop, take-drop, take_all, length_zero, lt_or_ge, ◌==◌,
}
use com0com.Driver.RawData.{RawData, raw_size, IsRaw, kept, add_raw_data, add_raw_data-Adds}
use com0com.Driver.Output.{Out, put, put_char}

-- What was delivered, and then what waits.
abbrev pub delivered : Out → List ℕ
delivered o = o.out ++ kept o.insert

-- There is room for so many bytes: bytes wait only when the buffer is full.
pub record Fits (o : Out) (k : ℕ) : Type 0 where
  pub real : o.null ≡ false
  pub raw : IsRaw o.insert
  pub place : (o.insert.size ≡ 0) ⊎ (o.room ≡ 0)
  pub space : o.insert.size + k ≤ raw_size + o.room

-- The bytes were put, room for `k` more is left, and the counts agree.
pub record Puts (o : Out) (bs : List ℕ) (k : ℕ) (o' : Out) : Type 0 where
  pub fits : Fits o' k
  pub says : delivered o' ≡ delivered o ++ bs
  pub filled : length o'.out + o'.room ≡ length o.out + o.room
  pub counted : o'.done + o'.room ≡ o.done + o.room

kept_nil : (r : RawData) → r.size ≡ 0 → kept r ≡ []
kept_nil r e = ap (λ k. take k r.bytes) e

pub Puts-nil : (o : Out) (k : ℕ) → Fits o k → Puts o [] k o
Puts-nil o k f = record {
  fits = f;
  says = sym (append-nil (delivered o));
  filled = refl;
  counted = refl;
}

pub Puts-append :
    {o o1 o2 : Out} (bs cs : List ℕ) (j k : ℕ)
    → Puts o bs j o1
    → Puts o1 cs k o2
    → Puts o (bs ++ cs) k o2
Puts-append {o} bs cs j k p q = record {
  fits = q.fits;
  says = q.says ∙ ap (λ xs. xs ++ cs) p.says ∙ append_assoc (delivered o) bs cs;
  filled = q.filled ∙ p.filled;
  counted = q.counted ∙ p.counted;
}

module _ (o : Out) (bs : List ℕ) (k : ℕ) (f : Fits o (length bs + k)) where
  -- All of it in the buffer.
  pub in_room :
      length bs ≤ o.room
      → Puts o bs k
          (record o { room = o.room - length bs; out = o.out ++ bs; done = o.done + length bs })
  in_room h = record {
    fits = record {
      real = f.real;
      raw = f.raw;
      place = elim f.place [ inl e ↦ inl e | inr e ↦ inr (omega arith) ];
      space = omega (arith, f.space);
    };
    says =
        append_assoc o.out bs (kept o.insert)
        ∙ ap (◌++◌ o.out) swap
        ∙ sym (append_assoc o.out (kept o.insert) bs);
    filled = omega (arith, length-append o.out bs);
    counted = omega arith;
  }
    where
      swap : bs ++ kept o.insert ≡ kept o.insert ++ bs
      swap = elim f.place [
        | inl e ↦
            ap (◌++◌ bs) (kept_nil o.insert e)
            ∙ append-nil bs
            ∙ ap (λ xs. xs ++ bs) (sym (kept_nil o.insert e))
        | inr e ↦
            let z : bs ≡ [] = length_zero bs (omega arith) in
            ap (λ xs. xs ++ kept o.insert) z
            ∙ sym (append-nil (kept o.insert))
            ∙ ap (◌++◌ (kept o.insert)) (sym z)
      ]

  -- The buffer is full: all of it waits.
  insert_only : o.room ≡ 0 → Puts o bs k (record o { insert = (add_raw_data o.insert bs).1 })
  insert_only h =
      let a = add_raw_data-Adds o.insert bs f.raw (omega (arith, f.space)) in
      record {
        fits = record {
          real = f.real;
          raw = a.raw;
          place = inr h;
          space = omega (arith, a.sized, f.space);
        };
        says = ap (◌++◌ o.out) a.keeps ∙ sym (append_assoc o.out (kept o.insert) bs);
        filled = refl;
        counted = refl;
      }

-- Some of it in the buffer, the rest waits.
over_room :
    (o : Out) (bs : List ℕ) (k : ℕ)
    → Fits o (length bs + k)
    → o.room < length bs
    → Puts o bs k (record o {
      room = o.room - o.room;
      out = o.out ++ take o.room bs;
      done = o.done + o.room;
      insert = (add_raw_data o.insert (drop o.room bs)).1;
    })
over_room o bs k f h =
    let t : length (take o.room bs) ≡ o.room = length-take o.room bs (omega arith) in
    let d = length-drop o.room bs in
    let o1 : Out = record o {
      room = o.room - length (take o.room bs);
      out = o.out ++ take o.room bs;
      done = o.done + length (take o.room bs);
    } in
    let j = length (drop o.room bs) + k in
    let p =
      in_room o (take o.room bs) j
        (record {
          real = f.real;
          raw = f.raw;
          place = f.place;
          space = omega (arith, t, d, f.space);
        })
        (omega (arith, t)) in
    let z : o.room - length (take o.room bs) ≡ 0 = omega (arith, t) in
    let q = insert_only o1 (drop o.room bs) k p.fits z in
    let r = Puts-append (take o.room bs) (drop o.room bs) j k p q in
    let o2 : ℕ → Out = λ m. record o {
      room = o.room - m;
      out = o.out ++ take o.room bs;
      done = o.done + m;
      insert = (add_raw_data o.insert (drop o.room bs)).1;
    } in
    subst (λ (xs : List ℕ). Puts o xs k (o2 o.room)) (take-drop o.room bs)
      (subst (λ (m : ℕ). Puts o (take o.room bs ++ drop o.room bs) k (o2 m)) t r)

put-in_room :
    (o : Out) (bs : List ℕ)
    → length bs ≤ o.room
    → put o bs
      ≡ record o { room = o.room - length bs; out = o.out ++ bs; done = o.done + length bs }
put-in_room o bs h =
    let m : min (length bs) o.room ≡ length bs = ground arith in
    let c : (length bs - length bs == 0) ≡ true = ground arith in
    let t : take (length bs) bs ≡ bs = take_all (length bs) bs (omega arith) in rw (m, c, t) refl

put-over :
    (o : Out) (bs : List ℕ)
    → o.null ≡ false
    → o.room < length bs
    → put o bs ≡ record o {
      room = o.room - o.room;
      out = o.out ++ take o.room bs;
      done = o.done + o.room;
      insert = (add_raw_data o.insert (drop o.room bs)).1;
    }
put-over o bs n h =
    let m : min (length bs) o.room ≡ o.room = ground arith in
    let c : (length bs - o.room == 0) ≡ false = ground arith in rw (m, n, c) refl

pub put-Puts : (o : Out) (bs : List ℕ) (k : ℕ) → Fits o (length bs + k) → Puts o bs k (put o bs)
put-Puts o bs k f = elim (lt_or_ge o.room (length bs)) [
  | inl h ↦ subst (Puts o bs k) (sym (put-over o bs f.real h)) (over_room o bs k f h)
  | inr h ↦ subst (Puts o bs k) (sym (put-in_room o bs h)) (in_room o bs k f h)
]

put_char-full :
    (o : Out) (c : ℕ)
    → o.null ≡ false
    → o.room ≡ 0
    → put_char o c ≡ record o { insert = (add_raw_data o.insert (c ∷ [])).1 }
put_char-full o c n h = let e : (o.room == 0) ≡ true = ground arith in rw (n, e) refl

put_char-room :
    (o : Out) (c : ℕ)
    → 1 ≤ o.room
    → put_char o c ≡ record o { room = o.room - 1; out = o.out ++ c ∷ []; done = o.done + 1 }
put_char-room o c h = let e : (o.room == 0) ≡ false = ground arith in rw (e) refl

pub put_char-Puts : (o : Out) (c k : ℕ) → Fits o (1 + k) → Puts o (c ∷ []) k (put_char o c)
put_char-Puts o c k f = elim (lt_or_ge o.room 1) [
  | inl h ↦
      subst (Puts o (c ∷ []) k) (sym (put_char-full o c f.real (omega arith)))
        (insert_only o (c ∷ []) k f (omega arith))
  | inr h ↦ subst (Puts o (c ∷ []) k) (sym (put_char-room o c h)) (in_room o (c ∷ []) k f h)
]
