-- ===== src/Driver/Buffer/Fill.antt =====
-- A copy into a read buffer of com0com/sys/bufutils.c adds to the end of the queue.
use com0com.Base.{
  ℕ, suc, ◌⊎◌, inl, inr, ◌+◌, ◌-◌, ◌≤◌, ◌<◌, List, ◌++◌, length, blit, ◌≡◌, sym, ap, subst, ◌∙◌,
  arith, append_assoc, length-blit,
}
use com0com.Driver.RawData.{kept}
use com0com.Driver.Ring.{Holds, advance, free_run, free_run-Holds, free_run-positive, free_run-le}
use com0com.Driver.Output.{Out}
use com0com.Driver.Output.Room.{Puts}
use com0com.Driver.Buffer.{Buffer, out_of, filled, room_of}
use com0com.Driver.Buffer.Queue.{Stored, Queued}

-- A full ring has no room, and one below its size has some.
pub free_of-positive :
    (b : Buffer) (q : List ℕ)
    → Stored b q
    → b.busy < b.p_end
    → 0 < free_run b.p_busy b.p_free b.p_end
free_of-positive b q st h =
    subst (λ e. 0 < free_run b.p_busy b.p_free e) (sym st.end)
      (free_run-positive b.mem q b.p_busy b.p_free b.busy st.ring (omega (arith, st.end)))

pub room_of-positive : (b : Buffer) (q : List ℕ) → Stored b q → b.busy < b.limit → 0 < room_of b
room_of-positive b q st h =
    let p = free_of-positive b q st (omega (arith, st.limited)) in ground (arith, p)

-- What is copied is counted.
pub done-Puts :
    (b : Buffer) (room : ℕ) (bs : List ℕ) (o : Out)
    → Puts (out_of b room) bs 0 o
    → (o.done ≡ length o.out) × (length o.out + o.room ≡ room)
done-Puts b room bs o p = omega (arith, p.filled, p.counted)

pub filled-Stored :
    (b : Buffer) (q bs : List ℕ) (room : ℕ) (o : Out)
    → Stored b q
    → b.busy < b.p_end
    → room ≤ free_run b.p_busy b.p_free b.p_end
    → Puts (out_of b room) bs 0 o
    → Stored (filled b o) (q ++ o.out)
filled-Stored b q bs room o st h hr p =
    let d = done-Puts b room bs o p in
    let l : length o.out ≤ free_run b.p_busy b.p_free (length b.mem) =
      subst (λ e. length o.out ≤ free_run b.p_busy b.p_free e) st.end (omega (arith, d.1)) in
    let r =
      free_run-Holds b.mem q o.out b.p_busy b.p_free b.busy st.ring (omega (arith, st.end)) l in
    let fit = free_run-le b.mem q b.p_busy b.p_free b.busy st.ring in
    let eb = length-blit b.mem o.out b.p_free (omega (arith, l, fit)) in
    record {
      ring =
          subst
            (λ (e : ℕ).
              Holds (blit b.mem b.p_free o.out) b.p_busy (advance b.p_free e b.p_end) (b.busy + e)
                (q ++ o.out))
            (sym d.0)
            (subst
              (λ (e : ℕ).
                Holds (blit b.mem b.p_free o.out) b.p_busy (advance b.p_free (length o.out) e)
                  (b.busy + length o.out) (q ++ o.out))
              (sym st.end) r);
      end = st.end ∙ sym eb;
      base = st.base;
      raw = p.fits.raw;
      limited = st.limited;
    }

pub filled-Queued :
    (b : Buffer) (xs bs : List ℕ) (room : ℕ) (o : Out)
    → Queued b xs
    → b.busy < b.p_end
    → room ≤ free_run b.p_busy b.p_free b.p_end
    → Puts (out_of b room) bs 0 o
    → Queued (filled b o) (xs ++ bs)
filled-Queued b xs bs room o u h hr p = record {
  live = u.live ++ o.out;
  stored = filled-Stored b u.live bs room o u.stored h hr p;
  all =
      append_assoc u.live o.out (kept o.insert)
      ∙ ap (◌++◌ u.live) p.says
      ∙ sym (append_assoc u.live (kept b.insert_data) bs)
      ∙ ap (λ ys. ys ++ bs) u.all;
}

-- The measure of a loop that fills a buffer up to `limit` with `n` bytes: a turn that does not use
-- all of them fills the room that it has, which is not empty.
pub shorter :
    (n k limit busy done left room out fuel : ℕ)
    → (k ≡ n) ⊎ (left ≡ 0)
    → done ≡ out
    → out + left ≡ room
    → 0 < room
    → busy < limit
    → 0 < n
    → ((n ≡ 0) × (0 < suc fuel)) ⊎ (limit - busy < suc fuel)
    → ((n - k ≡ 0) × (0 < fuel)) ⊎ (limit - (busy + done) < fuel)
shorter n k limit busy done left room out fuel s d e hr hb hn (inl z) = absurd (omega (arith, z.0))
shorter n k limit busy done left room out fuel (inl s) d e hr hb hn (inr h) =
    inl (omega arith, omega arith)
shorter n k limit busy done left room out fuel (inr s) d e hr hb hn (inr h) = inr (omega arith)
