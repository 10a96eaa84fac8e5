-- ===== src/Driver/Buffer/Raw.antt =====
-- Raw data written to a read buffer, in com0com/sys/bufutils.c.
use com0com.Base.{
  ℕ, zero, suc, ◌-◌, ◌≤◌, ◌<◌, Bool, true, false, List, [], ◌++◌, length, take, drop, leb, ◌==◌,
  if◌then◌else◌, Option, some, none, ◌≡◌, ◌⊎◌, inl, inr, refl, sym, ap, subst, ◌∙◌, arith,
  append_assoc, append-nil, take-drop, length-drop, lt_or_ge,
}
use com0com.Driver.RawData.{
  RawData, Status, success, pending, IsRaw, kept, kept-length, compact_raw_data,
  compact_raw_data-Compacts,
}
use com0com.Driver.Ring.{free_run}
use com0com.Driver.Output.{copy_plain}
use com0com.Driver.Output.Flush.{copy_plain-Copied}
use com0com.Driver.Buffer.{Buffer, out_of, filled, write_raw_loop, write_raw_data_to_buffer}
use com0com.Driver.Buffer.Queue.{Queued}
use com0com.Driver.Buffer.Fill.{free_of-positive, filled-Queued, done-Puts, shorter}

-- Some of the raw data went to the end of the queue, all of it, or until the buffer was full.
pub record RawEnds (xs raw : List ℕ) (p_end : ℕ) (st : Status) (r : RawData) (b : Buffer)
    : Type 0 where
  pub left : IsRaw r
  pub moved : List ℕ
  pub parts : moved ++ kept r ≡ raw
  pub queue : Queued b (xs ++ moved)
  pub same_end : b.p_end ≡ p_end
  pub status : ((st ≡ success) × (r.size ≡ 0)) ⊎ ((st ≡ pending) × (p_end ≤ b.busy) × (1 ≤ r.size))

abbrev pub RawWrites : List ℕ → List ℕ → ℕ → Option (Status × RawData × Buffer) → Type 0
RawWrites xs raw p_end none = ⊥
RawWrites xs raw p_end (some res) = RawEnds xs raw p_end res.0 res.1 res.2

loop-success :
    (fuel : ℕ) (r : RawData) (b : Buffer)
    → r.size ≡ 0
    → write_raw_loop (suc fuel) r b ≡ some (success, r, b)
unfolding write_raw_loop
loop-success fuel r b h = let e : (r.size == 0) ≡ true = ground arith in rw (e) refl

loop-pending :
    (fuel : ℕ) (r : RawData) (b : Buffer)
    → 0 < r.size
    → b.p_end ≤ b.busy
    → write_raw_loop (suc fuel) r b ≡ some (pending, r, b)
unfolding write_raw_loop
loop-pending fuel r b h hb =
    let e : (r.size == 0) ≡ false = ground arith in
    let f : leb b.p_end b.busy ≡ true = ground arith in rw (e, f) refl

loop-turn :
    (fuel : ℕ) (r : RawData) (b : Buffer)
    → 0 < r.size
    → b.busy < b.p_end
    → write_raw_loop (suc fuel) r b ≡ (
        let (o, done) = copy_plain (out_of b (free_run b.p_busy b.p_free b.p_end)) (kept r) in
        write_raw_loop fuel (compact_raw_data r done) (filled b o))
unfolding write_raw_loop
loop-turn fuel r b h hb =
    let e : (r.size == 0) ≡ false = ground arith in
    let f : leb b.p_end b.busy ≡ false = ground arith in rw (e, f) refl

RawWrites-more :
    (xs raw : List ℕ) (d p_end : ℕ) (o : Option (Status × RawData × Buffer))
    → RawWrites (xs ++ take d raw) (drop d raw) p_end o
    → RawWrites xs raw p_end o
RawWrites-more xs raw d p_end none h = h
RawWrites-more xs raw d p_end (some (st, r, b)) h = record {
  left = h.left;
  moved = take d raw ++ h.moved;
  parts =
      append_assoc (take d raw) h.moved (kept r) ∙ ap (◌++◌ (take d raw)) h.parts ∙ take-drop d raw;
  queue = subst (Queued b) (append_assoc xs (take d raw) h.moved) h.queue;
  same_end = h.same_end;
  status = h.status;
}

RawEnds-now :
    (xs : List ℕ) (st : Status) (r : RawData) (b : Buffer)
    → IsRaw r
    → Queued b xs
    → ((st ≡ success) × (r.size ≡ 0)) ⊎ ((st ≡ pending) × (b.p_end ≤ b.busy) × (1 ≤ r.size))
    → RawEnds xs (kept r) b.p_end st r b
RawEnds-now xs st r b w u s = record {
  left = w;
  moved = [];
  parts = refl;
  queue = subst (Queued b) (sym (append-nil xs)) u;
  same_end = refl;
  status = s;
}

write_raw_loop-RawWrites :
    (fuel : ℕ) (r : RawData) (b : Buffer) (xs : List ℕ)
    → IsRaw r
    → Queued b xs
    → ((r.size ≡ 0) × (0 < fuel)) ⊎ (b.p_end - b.busy < fuel)
    → RawWrites xs (kept r) b.p_end (write_raw_loop fuel r b)
write_raw_loop-RawWrites zero r b xs w u h = absurd (ground arith)
write_raw_loop-RawWrites (suc fuel) r b xs w u h = elim (lt_or_ge 0 r.size) [
  | inr hr ↦
      subst (RawWrites xs (kept r) b.p_end) (sym (loop-success fuel r b (omega arith)))
        (RawEnds-now xs success r b w u (inl (refl, omega arith)))
  | inl hr ↦ elim (lt_or_ge b.busy b.p_end) [
    | inr hb ↦
        subst (RawWrites xs (kept r) b.p_end) (sym (loop-pending fuel r b hr hb))
          (RawEnds-now xs pending r b w u (inr (refl, hb, hr)))
    | inl hb ↦
        let st = u.stored in
        let lk = kept-length r w in
        let room = free_run b.p_busy b.p_free b.p_end in
        let res = copy_plain (out_of b room) (kept r) in
        let k = res.1 in
        let c = copy_plain-Copied (out_of b room) (kept r) refl st.raw refl in
        let d = done-Puts b room (take k (kept r)) res.0 c.puts in
        let pos = free_of-positive b u.live st hb in
        let hk : k ≤ r.size = omega (arith, c.at_most, lk) in
        let t = compact_raw_data-Compacts r k w hk in
        let sz : (compact_raw_data r k).size ≡ r.size - k = omega (
          arith,
          kept-length (compact_raw_data r k) t.raw,
          ap length t.keeps,
          length-drop k (kept r),
          lk,
        ) in
        let stops : (k ≡ r.size) ⊎ (res.0.room ≡ 0) = elim c.stops [
          | inl e ↦ inl (e ∙ lk)
          | inr e ↦ inr e
        ] in
        let m =
          shorter r.size k b.p_end b.busy res.0.done res.0.room room (length res.0.out) fuel stops
            d.0 d.1 pos hb hr h in
        let fq = filled-Queued b xs (take k (kept r)) room res.0 u hb (omega arith) c.puts in
        let ih =
          write_raw_loop-RawWrites fuel (compact_raw_data r k) (filled b res.0)
            (xs ++ take k (kept r)) t.raw fq
            (elim m [ inl z ↦ inl (sz ∙ z.0, z.1) | inr z ↦ inr z ]) in
        subst (RawWrites xs (kept r) b.p_end) (sym (loop-turn fuel r b hr hb)) (
          RawWrites-more xs (kept r) k b.p_end
            (write_raw_loop fuel (compact_raw_data r k) (filled b res.0))
            (subst
              (λ (ys : List ℕ).
                RawWrites (xs ++ take k (kept r)) ys b.p_end
                  (write_raw_loop fuel (compact_raw_data r k) (filled b res.0)))
              t.keeps ih))
  ]
]

-- `WriteRawDataToBuffer` ends, having put a first part of the raw data at the end of the queue,
-- behind the waiting bytes, and left the rest; it succeeds just when nothing is left, and is
-- pending only with a full buffer.
pub write_raw_data_to_buffer-RawWrites :
    (r : RawData) (b : Buffer) (xs : List ℕ)
    → IsRaw r
    → Queued b xs
    → RawWrites xs (kept r) b.p_end (write_raw_data_to_buffer r b)
unfolding write_raw_data_to_buffer
write_raw_data_to_buffer-RawWrites r b xs w u =
    subst (RawWrites xs (kept r) b.p_end)
      (sym (
        ap (λ (c : Bool). if c then write_raw_loop (suc b.p_end) r b else some (pending, r, b))
          u.stored.base))
      (write_raw_loop-RawWrites (suc b.p_end) r b xs w u (inr (omega arith)))
