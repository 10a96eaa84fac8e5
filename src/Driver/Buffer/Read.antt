-- ===== src/Driver/Buffer/Read.antt =====
-- `ReadFromBuffer` of com0com/sys/bufutils.c takes bytes from the front of the queue.
use com0com.Base.{
  ℕ, zero, suc, ◌+◌, ◌-◌, ◌≤◌, ◌<◌, true, false, List, [], ◌++◌, length, take, drop, min, ◌==◌,
  Option, some, none, ◌≡◌, refl, sym, ap, ap₂, subst, ◌∙◌, arith, take-append_of_le, drop-append,
  take-add, take-take, take_all, drop_all, drop-drop, inl, inr, lt_or_ge, length_zero,
}
use com0com.Driver.RawData.{kept, kept-length, compact_raw_data, compact_raw_data-Compacts}
use com0com.Driver.Ring.{Holds, live_run, advance, live_run-Takes, live_run-positive}
use com0com.Driver.Buffer.{Buffer, taken, run_of, bytes_before, read_loop, read_from_buffer}
use com0com.Driver.Buffer.Queue.{Stored, waiting, Queued, busy-Holds}

-- The first `n` bytes of `xs` are read, and the others stay.
abbrev pub Reads : List ℕ → ℕ → Option (List ℕ × Buffer) → Type 0
Reads xs n none = ⊥
Reads xs n (some r) = (r.0 ≡ take n xs) × Queued r.1 (drop n xs)

-- The live bytes are used up: those of insertData are read.
insert-Reads :
    (b : Buffer) (n : ℕ)
    → Stored b []
    → Reads (kept b.insert_data) n (
        some (
          take (min b.insert_data.size n) b.insert_data.bytes,
          record b { insert_data = compact_raw_data b.insert_data (min b.insert_data.size n) },
        ))
insert-Reads b n st =
    let r = b.insert_data in
    let lk = kept-length r st.raw in
    let c = compact_raw_data-Compacts r (min r.size n) st.raw (ground arith) in
    let stored : Stored (record b { insert_data = compact_raw_data r (min r.size n) }) [] = record {
      ring = st.ring;
      end = st.end;
      base = st.base;
      raw = c.raw;
      limited = st.limited;
    } in
    elim (lt_or_ge r.size n) [
      | inl h ↦
          let m : min r.size n ≡ r.size = ground arith in
          (
            ap (λ k. take k r.bytes) m ∙ sym (take_all n (kept r) (omega (arith, lk))),
            record {
              live = [];
              stored = stored;
              all =
                  c.keeps
                  ∙ drop_all (min r.size n) (kept r) (omega (arith, m, lk))
                  ∙ sym (drop_all n (kept r) (omega (arith, lk)));
            },
          )
      | inr h ↦
          let m : min r.size n ≡ n = ground arith in
          (
            ap (λ k. take k r.bytes) m ∙ sym (take-take n r.size r.bytes h),
            record { live = []; stored = stored; all = c.keeps ∙ ap (λ k. drop k (kept r)) m },
          )
    ]

-- A piece from the ring, and the rest of the read.
before-Reads :
    (b : Buffer) (q : List ℕ) (l n : ℕ) (rest : Option (List ℕ × Buffer))
    → l ≤ n
    → l ≤ length q
    → take l (drop b.p_busy b.mem) ≡ take l q
    → Reads (drop l q ++ kept b.insert_data) (n - l) rest
    → Reads (waiting b q) n (bytes_before (take l (drop b.p_busy b.mem)) rest)
before-Reads b q l n none hn hq e h = h
before-Reads b q l n (some (cs, b')) hn hq e (et, r) =
    let xs = waiting b q in
    let tl : take l xs ≡ take l q = take-append_of_le l q (kept b.insert_data) hq in
    let dl : drop l xs ≡ drop l q ++ kept b.insert_data = drop-append l q (kept b.insert_data) hq in
    let s : l + (n - l) ≡ n = omega arith in
    (
      ap₂ (◌++◌) (e ∙ sym tl) (et ∙ ap (take (n - l)) (sym dl))
          ∙ sym (take-add l (n - l) xs)
          ∙ ap (λ k. take k xs) s,
      record {
        live = r.live;
        stored = r.stored;
        all = r.all ∙ ap (drop (n - l)) (sym dl) ∙ drop-drop l (n - l) xs ∙ ap (λ k. drop k xs) s;
      },
    )

-- Live bytes of the run taken out of the buffer.
pub record TakesLive (b : Buffer) (q : List ℕ) (l : ℕ) : Type 0 where
  pub bytes : take l (drop b.p_busy b.mem) ≡ take l q
  pub within : l ≤ length q
  pub stored : Stored (taken b l) (drop l q)

pub taken-TakesLive :
    (b : Buffer) (q : List ℕ) (l : ℕ) → Stored b q → 0 < b.busy → l ≤ run_of b → TakesLive b q l
taken-TakesLive b q l st h hl =
    let t =
      live_run-Takes b.mem q b.p_busy b.p_free b.busy l st.ring h
        (subst (λ e. l ≤ live_run b.p_busy b.p_free e b.busy) st.end hl) in
    record {
      bytes = t.bytes;
      within = t.within;
      stored = record {
        ring =
            subst (λ e. Holds b.mem (advance b.p_busy l e) b.p_free (b.busy - l) (drop l q))
              (sym st.end) t.rest;
        end = st.end;
        base = st.base;
        raw = st.raw;
        limited = st.limited;
      };
    }

pub run_of-positive : (b : Buffer) (q : List ℕ) → Stored b q → 0 < b.busy → 0 < run_of b
run_of-positive b q st h =
    subst (λ e. 0 < live_run b.p_busy b.p_free e b.busy) (sym st.end)
      (live_run-positive b.mem q b.p_busy b.p_free b.busy st.ring h)

read_loop-live :
    (fuel : ℕ) (b : Buffer) (n : ℕ)
    → 0 < n
    → 0 < b.busy
    → read_loop (suc fuel) b n ≡ (
        let l = min (run_of b) n in
        bytes_before (take l (drop b.p_busy b.mem)) (read_loop fuel (taken b l) (n - l)))
unfolding read_loop
read_loop-live fuel b n hn hb =
    let e : (n == 0) ≡ false = ground arith in
    let f : (b.busy == 0) ≡ false = ground arith in rw (e, f) refl

read_loop-inserted :
    (fuel : ℕ) (b : Buffer) (n : ℕ)
    → 0 < n
    → b.busy ≡ 0
    → 0 < b.insert_data.size
    → read_loop (suc fuel) b n
      ≡ some (
        take (min b.insert_data.size n) b.insert_data.bytes,
        record b { insert_data = compact_raw_data b.insert_data (min b.insert_data.size n) },
      )
unfolding read_loop
read_loop-inserted fuel b n hn hb hs =
    let e : (n == 0) ≡ false = ground arith in
    let f : (b.busy == 0) ≡ true = ground arith in
    let g : (b.insert_data.size == 0) ≡ false = ground arith in rw (e, f, g) refl

read_loop-nothing :
    (fuel : ℕ) (b : Buffer) (n : ℕ)
    → 0 < n
    → b.busy ≡ 0
    → b.insert_data.size ≡ 0
    → read_loop (suc fuel) b n ≡ some ([], b)
unfolding read_loop
read_loop-nothing fuel b n hn hb hs =
    let e : (n == 0) ≡ false = ground arith in
    let f : (b.busy == 0) ≡ true = ground arith in
    let g : (b.insert_data.size == 0) ≡ true = ground arith in rw (e, f, g) refl

drained-Reads :
    (fuel : ℕ) (b : Buffer) (n : ℕ)
    → 0 < n
    → b.busy ≡ 0
    → Stored b []
    → Reads (kept b.insert_data) n (read_loop (suc fuel) b n)
drained-Reads fuel b n hn hb st = elim (lt_or_ge 0 b.insert_data.size) [
  | inl h ↦
      subst (Reads (kept b.insert_data) n) (sym (read_loop-inserted fuel b n hn hb h))
        (insert-Reads b n st)
  | inr h ↦
      let z : b.insert_data.size ≡ 0 = omega arith in
      let k : length (kept b.insert_data) ≤ 0 = omega (arith, kept-length b.insert_data st.raw) in
      subst (Reads (kept b.insert_data) n) (sym (read_loop-nothing fuel b n hn hb z)) (
        sym (
            take_all n (kept b.insert_data) (omega (arith, k))
            ∙ length_zero (kept b.insert_data) (omega (arith, k))),
        record {
          live = [];
          stored = st;
          all =
              length_zero (kept b.insert_data) (omega (arith, k))
              ∙ sym (drop_all n (kept b.insert_data) (omega (arith, k)));
        },
      )
]

read_loop-Reads :
    (fuel : ℕ) (b : Buffer) (q : List ℕ) (n : ℕ)
    → Stored b q
    → n < fuel
    → Reads (waiting b q) n (read_loop fuel b n)
unfolding read_loop
read_loop-Reads zero b q n st h = absurd (omega arith)
read_loop-Reads (suc fuel) b q zero st h = (refl, record { live = q; stored = st; all = refl })
read_loop-Reads (suc fuel) b q (suc m) st h = elim (lt_or_ge 0 b.busy) [
  | inl hb ↦
      let l = min (run_of b) (suc m) in
      let pos = run_of-positive b q st hb in
      let t = taken-TakesLive b q l st hb (ground arith) in
      let hl : l ≤ suc m = ground arith in
      let hp : 1 ≤ l = ground (arith, pos) in
      subst (Reads (waiting b q) (suc m)) (sym (read_loop-live fuel b (suc m) (omega arith) hb)) (
        before-Reads b q l (suc m) (read_loop fuel (taken b l) (suc m - l)) hl t.within t.bytes
          (read_loop-Reads fuel (taken b l) (drop l q) (suc m - l) t.stored (omega (arith, hp, h))))
  | inr hb ↦
      let z : q ≡ [] = length_zero q (omega (arith, busy-Holds st.ring)) in
      subst (λ (xs : List ℕ). Reads (waiting b xs) (suc m) (read_loop (suc fuel) b (suc m))) (sym z)
        (drained-Reads fuel b (suc m) (omega arith) (omega arith) (subst (Stored b) z st))
]

-- `ReadFromBuffer` ends, gives the first bytes of the queue, as many as were asked for or as there
-- are, and leaves the others in order.
pub read_from_buffer-Reads :
    (b : Buffer) (xs : List ℕ) (n : ℕ) → Queued b xs → Reads xs n (read_from_buffer b n)
unfolding read_from_buffer
read_from_buffer-Reads b xs n r =
    subst (λ (ys : List ℕ). Reads ys n (read_loop (suc n) b n)) r.all
      (read_loop-Reads (suc n) b r.live n r.stored (omega arith))
