-- ===== src/Driver/TxBuffer/Fill.antt =====
-- `WriteToTxBuffer` of com0com/sys/bufutils.c: all or nothing, up to the size of the FIFO.
use com0com.Base.{
  ℕ, zero, suc, ◌+◌, ◌-◌, ◌≤◌, ◌<◌, true, false, List, [], ◌++◌, length, take, drop, min, blit, ltb,
  leb, ◌==◌, if◌then◌else◌, Option, some, none, ◌≡◌, inl, inr, refl, sym, ap, subst, ◌∙◌, arith,
  append_assoc, append-nil, take-add, length-take, length-drop, length-blit, Bool-cases,
}
use com0com.Driver.Ring.{
  Holds, linear, advance, free_run, free_run-Holds, free_run-positive, free_run-le,
}
use com0com.Driver.TxBuffer.{
  TxBuffer, least_size, set_tx_buffer, tx_filled, piece, count_before, tx_write_loop,
  write_to_tx_buffer,
}

-- The registers hold the bytes `q`.
pub record TxStored (t : TxBuffer) (q : List ℕ) : Type 0 where
  pub ring : Holds t.mem t.p_busy t.p_free t.busy q
  pub end : t.p_end ≡ length t.mem

-- A reset empties the registers.
pub set_tx_buffer-TxStored :
    (t : TxBuffer) → length t.mem ≡ least_size → TxStored (set_tx_buffer t) []
unfolding set_tx_buffer
set_tx_buffer-TxStored t h = record {
  ring = linear [] t.mem refl refl refl (omega arith) refl;
  end = sym h;
}

-- So many of the bytes are taken, and they are behind those that were there.
abbrev pub Takes : List ℕ → List ℕ → ℕ → ℕ → Option (TxBuffer × ℕ) → Type 0
Takes q write n p_end none = ⊥
Takes q write n p_end (some r) = (r.1 ≡ n) × TxStored r.0 (q ++ take n write) × (r.0.p_end ≡ p_end)

tx_filled-TxStored :
    (t : TxBuffer) (q bs : List ℕ)
    → TxStored t q
    → t.busy < t.p_end
    → length bs ≤ free_run t.p_busy t.p_free t.p_end
    → TxStored (tx_filled t bs) (q ++ bs)
tx_filled-TxStored t q bs st h l =
    let l' : length bs ≤ free_run t.p_busy t.p_free (length t.mem) =
      subst (λ e. length bs ≤ free_run t.p_busy t.p_free e) st.end l in
    let r = free_run-Holds t.mem q bs t.p_busy t.p_free t.busy st.ring (omega (arith, st.end)) l' in
    let fit = free_run-le t.mem q t.p_busy t.p_free t.busy st.ring in
    record {
      ring =
          subst
            (λ (e : ℕ).
              Holds (blit t.mem t.p_free bs) t.p_busy (advance t.p_free (length bs) e)
                (t.busy + length bs) (q ++ bs))
            (sym st.end) r;
      end = st.end ∙ sym (length-blit t.mem bs t.p_free (omega (arith, l', fit)));
    }

loop-turn :
    (fuel : ℕ) (t : TxBuffer) (write : List ℕ) (n : ℕ)
    → 0 < n
    → t.busy < t.p_end
    → tx_write_loop (suc fuel) t write n ≡ (
        let l = piece t n in
        count_before l (tx_write_loop fuel (tx_filled t (take l write)) (drop l write) (n - l)))
unfolding tx_write_loop
loop-turn fuel t write n hn hb =
    let e : (n == 0) ≡ false = ground arith in
    let f : ltb t.busy t.p_end ≡ true = ground arith in rw (e, f) refl

Takes-before :
    (q write : List ℕ) (l n p_end : ℕ) (o : Option (TxBuffer × ℕ))
    → l ≤ n
    → Takes (q ++ take l write) (drop l write) (n - l) p_end o
    → Takes q write n p_end (count_before l o)
Takes-before q write l n p_end none h v = v
Takes-before q write l n p_end (some r) h (e, st, pe) = (
  omega (arith, e),
  subst (TxStored r.0)
      (append_assoc q (take l write) (take (n - l) (drop l write))
        ∙ ap (◌++◌ q) (
            sym (take-add l (n - l) write)
            ∙ ap (λ k. take k write) {x = l + (n - l)} {y = n} (omega arith)))
      st,
  pe,
)

tx_write_loop-Takes :
    (fuel : ℕ) (t : TxBuffer) (q write : List ℕ) (n : ℕ)
    → TxStored t q
    → n ≤ length write
    → t.busy + n ≤ t.p_end
    → n < fuel
    → Takes q write n t.p_end (tx_write_loop fuel t write n)
unfolding tx_write_loop
tx_write_loop-Takes zero t q write n st hw hp h = absurd (omega arith)
tx_write_loop-Takes (suc fuel) t q write zero st hw hp h =
    (refl, subst (TxStored t) (sym (append-nil q)) st, refl)
tx_write_loop-Takes (suc fuel) t q write (suc m) st hw hp h =
    let n = suc m in
    let l = piece t n in
    let pos : 0 < free_run t.p_busy t.p_free t.p_end =
      subst (λ e. 0 < free_run t.p_busy t.p_free e) (sym st.end)
        (free_run-positive t.mem q t.p_busy t.p_free t.busy st.ring (omega (arith, st.end))) in
    let hl : l ≤ n = ground arith in
    let hp1 : 1 ≤ l = ground (arith, pos) in
    let lt : length (take l write) ≡ l = length-take l write (omega (arith, hl)) in
    let lr : l ≤ free_run t.p_busy t.p_free t.p_end = ground arith in
    let st' = tx_filled-TxStored t q (take l write) st (omega arith) (omega (arith, lt, lr)) in
    subst (Takes q write n t.p_end) (sym (loop-turn fuel t write n (omega arith) (omega arith))) (
      Takes-before q write l n t.p_end
        (tx_write_loop fuel (tx_filled t (take l write)) (drop l write) (n - l)) hl
        (tx_write_loop-Takes fuel (tx_filled t (take l write)) (q ++ take l write) (drop l write)
          (n - l) st' (omega (arith, length-drop l write)) (omega (arith, lt, hl))
          (omega (arith, hp1, h))))

-- How many bytes are accepted.
abbrev pub accepted : TxBuffer → ℕ → ℕ
accepted t n = if leb t.busy 1 then min n (t.p_end - 1) else 0

-- `WriteToTxBuffer` ends; while more than the shift register is in use it takes nothing, and else
-- just as many bytes as were given or as the FIFO has places, behind the byte that is still there.
pub write_to_tx_buffer-Takes :
    (t : TxBuffer) (q write : List ℕ) (n : ℕ)
    → TxStored t q
    → 0 < t.p_end
    → n ≤ length write
    → Takes q write (accepted t n) t.p_end (write_to_tx_buffer t write n)
unfolding write_to_tx_buffer
write_to_tx_buffer-Takes t q write n st hp hw = elim (Bool-cases (leb t.busy 1)) [
  | inl e ↦
      let k = if ltb (t.p_end - 1) n then t.p_end - 1 else n in
      let m : k ≡ min n (t.p_end - 1) = ground arith in
      let r =
        tx_write_loop-Takes (suc k) t q write k st (ground arith) (ground arith) (omega arith) in
      rw (e) (subst (λ (j : ℕ). Takes q write j t.p_end (tx_write_loop (suc k) t write k)) m r)
  | inr e ↦ rw (e) (refl, subst (TxStored t) (sym (append-nil q)) st, refl)
]
