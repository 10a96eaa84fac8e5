-- ===== src/Driver/Buffer/Setup.antt =====
-- The read buffers of com0com/sys/bufutils.c made, emptied and enlarged.
use com0com.Base.{
  ℕ, zero, suc, ◌+◌, ◌*◌, ◌/◌, ◌<◌, Bool, true, false, List, [], ◌++◌, length, take, drop, blit,
  ltb, leb, ◌==◌, if◌then◌else◌, Option, some, none, ◌≡◌, refl, sym, ap, ap₂, subst, ◌∙◌, arith,
  append_assoc, append-nil, take-drop, length-drop, length-take, length-append, lt_or_ge,
  length_zero, inl, inr,
}
use com0com.Driver.Ring.{Holds, linear, wrapped, linear_blit, busy-le}
use com0com.Driver.Buffer.{
  Buffer, taken, run_of, init_buffer, purge_buffer, set_buffer_limit, move_loop,
  set_new_buffer_base, init_buffer_base, no_data,
}
use com0com.Driver.Buffer.Queue.{Stored, Queued, busy-Holds}
use com0com.Driver.Buffer.Read.{taken-TakesLive, run_of-positive}

-- A buffer with a block starts empty.
pub init_buffer-Queued :
    (block : List ℕ) → 0 < length block → Queued (init_buffer (some block) (length block)) []
unfolding init_buffer init_buffer_base purge_buffer
init_buffer-Queued block h = record {
  live = [];
  stored = record {
    ring = linear [] block refl refl refl h refl;
    end = refl;
    base = refl;
    raw = record { array = refl; fits = omega arith };
    limited = omega arith;
  };
  all = refl;
}

block-Holds :
    {mem q : List ℕ} {p_busy p_free busy : ℕ} → Holds mem p_busy p_free busy q → 0 < length mem
block-Holds (linear pre post e eb ef hp hb) =
    omega (arith, ap length e, length-append pre _, length-append _ post)
block-Holds (wrapped lo gap hi e eq eb ef hp hb) =
    omega (arith, ap length e, length-append lo (gap ++ hi), length-append gap hi)

-- Purging empties a buffer and leaves its limit.
pub purge_buffer-Queued :
    (b : Buffer) (xs : List ℕ)
    → Queued b xs
    → Queued (purge_buffer b) [] × ((purge_buffer b).limit ≡ b.limit)
unfolding purge_buffer
purge_buffer-Queued b xs u = (
  record {
    live = [];
    stored = record {
      ring = linear [] b.mem refl refl refl (block-Holds u.stored.ring) refl;
      end = u.stored.end;
      base = u.stored.base;
      raw = record { array = u.stored.raw.array; fits = omega arith };
      limited = u.stored.limited;
    };
    all = refl;
  },
  refl,
)

-- A new limit leaves the queue.
pub set_buffer_limit-Queued :
    (b : Buffer) (xs : List ℕ) (limit : ℕ) → Queued b xs → Queued (set_buffer_limit b limit) xs
unfolding set_buffer_limit
set_buffer_limit-Queued b xs limit u = record {
  live = u.live;
  stored = record {
    ring = u.stored.ring;
    end = u.stored.end;
    base = u.stored.base;
    raw = u.stored.raw;
    limited = ground arith;
  };
  all = u.all;
}

-- A new block that has `q` at its start, and room for `n` bytes and one more.
record Fresh (new : Buffer) (q : List ℕ) (n : ℕ) : Type 0 where
  rest : List ℕ
  block : new.mem ≡ q ++ rest
  free : new.p_free ≡ length q
  count : new.busy ≡ length q
  room : n < length rest

-- What the loop leaves alone.
record Same (new r : Buffer) : Type 0 where
  same_end : r.p_end ≡ new.p_end
  same_size : length r.mem ≡ length new.mem
  same_busy : r.p_busy ≡ new.p_busy
  same_base : r.has_base ≡ new.has_base
  same_limit : r.limit ≡ new.limit

abbrev Moves : List ℕ → Buffer → Option Buffer → Type 0
Moves q new none = ⊥
Moves q new (some r) = Fresh r q 0 × Same new r

abbrev extended : Buffer → List ℕ → Buffer
extended new bs = record new {
  mem = blit new.mem new.p_free bs;
  busy = new.busy + length bs;
  p_free = new.p_free + length bs;
}

Fresh-extended :
    (new : Buffer) (q bs : List ℕ) (n : ℕ)
    → Fresh new q (length bs + n)
    → Fresh (extended new bs) (q ++ bs) n × Same new (extended new bs)
Fresh-extended new q bs n f =
    let e = linear_blit bs [] q f.rest f.block (omega (arith, f.free)) (omega (arith, f.room)) in
    (
      record {
        rest = drop (length bs) f.rest;
        block = e;
        free = omega (arith, f.free, length-append q bs);
        count = omega (arith, f.count, length-append q bs);
        room = omega (arith, f.room, length-drop (length bs) f.rest);
      },
      record {
        same_end = refl;
        same_size = omega (
          arith,
          ap length e,
          ap length f.block,
          length-append (q ++ bs) (drop (length bs) f.rest),
          length-append q bs,
          length-append q f.rest,
          length-drop (length bs) f.rest,
          f.room,
        );
        same_busy = refl;
        same_base = refl;
        same_limit = refl;
      },
    )

move_loop-moved :
    (fuel : ℕ) (b new : Buffer)
    → 0 < b.busy
    → move_loop (suc fuel) b new ≡ (
        let l = run_of b in
        move_loop fuel (taken b l) (record new {
          mem = blit new.mem new.p_free (take l (drop b.p_busy b.mem));
          busy = new.busy + l;
          p_free = new.p_free + l;
        }))
unfolding move_loop
move_loop-moved fuel b new h = let e : (b.busy == 0) ≡ false = ground arith in rw (e) refl

move_loop-end : (fuel : ℕ) (b new : Buffer) → b.busy ≡ 0 → move_loop (suc fuel) b new ≡ some new
unfolding move_loop
move_loop-end fuel b new h = let e : (b.busy == 0) ≡ true = ground arith in rw (e) refl

Same-Moves :
    (q : List ℕ) (new mid : Buffer) (o : Option Buffer)
    → Same new mid
    → Moves q mid o
    → Moves q new o
Same-Moves q new mid none s m = m
Same-Moves q new mid (some r) s (f, t) = (
  f,
  record {
    same_end = t.same_end ∙ s.same_end;
    same_size = t.same_size ∙ s.same_size;
    same_busy = t.same_busy ∙ s.same_busy;
    same_base = t.same_base ∙ s.same_base;
    same_limit = t.same_limit ∙ s.same_limit;
  },
)

move_loop-Moves :
    (fuel : ℕ) (b new : Buffer) (p q : List ℕ)
    → Stored b q
    → Fresh new p (length q)
    → b.busy < fuel
    → Moves (p ++ q) new (move_loop fuel b new)
move_loop-Moves zero b new p q st f h = absurd (omega arith)
move_loop-Moves (suc fuel) b new p q st f h = elim (lt_or_ge 0 b.busy) [
  | inl hb ↦
      let l = run_of b in
      let t = taken-TakesLive b q l st hb (omega arith) in
      let pos = run_of-positive b q st hb in
      let bs = take l q in
      let lb : length bs ≡ l = length-take l q t.within in
      let (f', s) = Fresh-extended new p bs (length (drop l q)) (record {
        rest = f.rest;
        block = f.block;
        free = f.free;
        count = f.count;
        room = omega (arith, f.room, lb, length-drop l q, t.within);
      }) in
      let o = move_loop fuel (taken b l) (extended new bs) in
      let e : move_loop (suc fuel) b new ≡ o =
        move_loop-moved fuel b new hb
        ∙ ap₂
            (λ (xs : List ℕ) (k : ℕ). move_loop fuel (taken b l) (record new {
              mem = blit new.mem new.p_free xs;
              busy = new.busy + k;
              p_free = new.p_free + k;
            }))
            t.bytes (sym lb) in
      let m =
        move_loop-Moves fuel (taken b l) (extended new bs) (p ++ bs) (drop l q) t.stored f'
          (omega (arith, pos, h)) in
      subst (Moves (p ++ q) new) (sym e) (
        subst (λ (xs : List ℕ). Moves xs new o)
          (append_assoc p bs (drop l q) ∙ ap (◌++◌ p) (take-drop l q))
          (Same-Moves ((p ++ bs) ++ drop l q) new (extended new bs) o s m))
  | inr hb ↦
      let z : q ≡ [] = length_zero q (omega (arith, busy-Holds st.ring)) in
      subst (Moves (p ++ q) new) (sym (move_loop-end fuel b new (omega arith))) (
        subst (λ (xs : List ℕ). Fresh new xs 0 × Same new new)
          (sym (append-nil p) ∙ ap (◌++◌ p) (sym z))
          (
            record {
              rest = f.rest;
              block = f.block;
              free = f.free;
              count = f.count;
              room = omega (arith, f.room);
            },
            record {
              same_end = refl;
              same_size = refl;
              same_busy = refl;
              same_base = refl;
              same_limit = refl;
            },
          ))
]

-- How a buffer is enlarged: a block that is not larger is refused, else the queue is kept, and the
-- limit is the new size.
abbrev pub Enlarges : Buffer → List ℕ → ℕ → Option (Bool × Buffer) → Type 0
Enlarges b xs size none = ⊥
Enlarges b xs size (some r) =
    (r.0 ≡ ltb b.p_end size)
    × Queued r.1 xs
    × (r.1.p_end ≡ (if ltb b.p_end size then size else b.p_end))
    × (r.1.limit ≡ (if ltb b.p_end size then size else b.limit))

abbrev fresh_buffer : List ℕ → Buffer
fresh_buffer block = record {
  has_base = true;
  mem = block;
  p_busy = 0;
  p_free = 0;
  p_end = length block;
  busy = 0;
  limit = length block;
  size80 = (length block * 4 + 4) / 5;
  insert_data = no_data;
}

abbrev replaced : Buffer → Option Buffer → Option (Bool × Buffer)
replaced b m = elim m [
  | none ↦ none
  | some new' ↦ some (true, record new' { insert_data = b.insert_data })
]

replaced-Enlarges :
    (b : Buffer) (xs block : List ℕ) (m : Option Buffer) (u : Queued b xs)
    → b.p_end < length block
    → Moves u.live (fresh_buffer block) m
    → Enlarges b xs (length block) (replaced b m)
replaced-Enlarges b xs block none u h v = v
replaced-Enlarges b xs block (some r) u h (f, s) =
    let t : ltb b.p_end (length block) ≡ true = ground arith in
    let q : Queued (record r { insert_data = b.insert_data }) xs = record {
      live = u.live;
      stored = record {
        ring = linear [] f.rest f.block s.same_busy (omega (arith, f.free)) f.room f.count;
        end = s.same_end ∙ sym s.same_size;
        base = s.same_base;
        raw = u.stored.raw;
        limited = omega (arith, s.same_limit, s.same_end);
      };
      all = u.all;
    } in
    rw (t) (refl, q, s.same_end, s.same_limit)

-- `SetNewBufferBase` ends; a larger block takes the place of the old one and the queue of the
-- buffer, live bytes and waiting ones, is kept.
pub set_new_buffer_base-Enlarges :
    (b : Buffer) (xs block : List ℕ)
    → Queued b xs
    → Enlarges b xs (length block) (set_new_buffer_base b block (length block))
unfolding set_new_buffer_base init_buffer_base
set_new_buffer_base-Enlarges b xs block u = elim (lt_or_ge b.p_end (length block)) [
  | inl h ↦
      let e : leb (length block) b.p_end ≡ false = ground arith in
      let l = busy-Holds u.stored.ring in
      let m =
        move_loop-Moves (suc b.busy) b (fresh_buffer block) [] u.live u.stored
          (record {
            rest = block;
            block = refl;
            free = refl;
            count = refl;
            room = omega (arith, l, busy-le u.stored.ring, u.stored.end);
          })
          (omega arith) in
      subst (Enlarges b xs (length block))
        (sym (
          ap₂
            (λ (c d : Bool).
              if c
              then some (false, b)
              else replaced b (
                  if d
                  then move_loop (suc b.busy) b (fresh_buffer block)
                  else some (fresh_buffer block)))
            e u.stored.base))
        (replaced-Enlarges b xs block (move_loop (suc b.busy) b (fresh_buffer block)) u h m)
  | inr h ↦
      let e : leb (length block) b.p_end ≡ true = ground arith in
      let t : ltb b.p_end (length block) ≡ false = ground arith in rw (e, t) (refl, u, refl, refl)
]
