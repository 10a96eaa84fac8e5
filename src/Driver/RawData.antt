-- ===== src/Driver/RawData.antt =====
-- `C0C_RAW_DATA` of com0com/sys/com0com.h and its functions in bufutils.c. HALT_UNLESS is an
-- assertion of the debug build: what it asserts is a part of `IsRaw`.
use com0com.Base.{
  ℕ, ◌+◌, ◌-◌, ◌≤◌, ◌%◌, Bool, false, List, [], ◌∷◌, ◌++◌, ◌≡◌, refl, sym, ap, ◌∙◌, arith, length,
  take, drop, blit, ◌==◌, nonzero, if◌then◌else◌, length-take, length-drop, length-blit, take-blit,
  drop-take, zero, suc, subst, take_all, Bool-cases, inl, inr, append-nil, drop_all, min,
}

-- `bytes` is the field `data`, an array of `raw_size` bytes.
pub record RawData : Type 0 where
  pub size : ℕ
  pub bytes : List ℕ

abbrev pub raw_size : ℕ
raw_size = 7

pub record IsRaw (r : RawData) : Type 0 where
  pub array : length r.bytes ≡ raw_size
  pub fits : r.size ≤ raw_size

-- The bytes that wait.
abbrev pub kept : RawData → List ℕ
kept r = take r.size r.bytes

-- (UCHAR)(size - writeDone)
abbrev uchar_sub : ℕ → ℕ → ℕ
uchar_sub size write_done = (size + 256 - write_done % 256) % 256

-- Bytes `from` the array moved to its start.
abbrev moved : List ℕ → ℕ → ℕ → List ℕ
moved bytes from size = blit bytes 0 (take size (drop from bytes))

unfoldable pub compact_raw_data : RawData → ℕ → RawData
compact_raw_data r write_done =
    let size = uchar_sub r.size write_done in
    if nonzero write_done
    then if nonzero size
      then record { size = size; bytes = moved r.bytes write_done size }
      else record { size = size; bytes = r.bytes }
    else r

-- How many bytes are added, and the data with them.
unfoldable pub add_raw_data : RawData → List ℕ → ℕ × RawData
add_raw_data dst src =
    let len = min (raw_size - dst.size) (length src) in
    if length src == 0 then (0, dst) else if raw_size - dst.size == 0 then (0, dst) else (
      len,
      record { size = (dst.size + len) % 256; bytes = blit dst.bytes dst.size (take len src) },
    )

-- NTSTATUS: STATUS_SUCCESS or STATUS_PENDING.
pub data Status : Type 0 where
  success pending : Status

-- The status, the destination and the source.
unfoldable pub move_raw_data : RawData → RawData → Status × RawData × RawData
move_raw_data dst src =
    let (done, dst') = add_raw_data dst (kept src) in
    let src' = compact_raw_data src done in
    (if nonzero src'.size then pending else success, dst', src')

pub kept-length : (r : RawData) → IsRaw r → length (kept r) ≡ r.size
kept-length r w = omega (arith, length-take r.size r.bytes (omega arith), w.array, w.fits)

-- Compacting leaves `bs`.
pub record Compacts (r : RawData) (bs : List ℕ) : Type 0 where
  pub raw : IsRaw r
  pub keeps : kept r ≡ bs

moved-Compacts :
    (r : RawData) (n : ℕ)
    → IsRaw r
    → n ≤ r.size
    → Compacts
        (record { size = r.size - n; bytes = moved r.bytes n (r.size - n) })
        (drop n (kept r))
moved-Compacts r n w h = record {
  raw = record {
    array =
        length-blit r.bytes (take s (drop n r.bytes)) 0 (omega (arith, lt, w.fits, w.array))
        ∙ w.array;
    fits = omega (arith, w.fits);
  };
  keeps =
      ap (λ k. take k (moved r.bytes n s)) {x = s} {y = 0 + length (take s (drop n r.bytes))}
        (omega (arith, lt))
      ∙ take-blit r.bytes (take s (drop n r.bytes)) 0 (omega arith)
      ∙ sym (drop-take n s r.bytes)
      ∙ ap (λ k. drop n (take k r.bytes)) {x = n + s} {y = r.size} (omega arith);
}
  where
    s : ℕ
    s = r.size - n

    lt : length (take s (drop n r.bytes)) ≡ s
    lt = length-take s (drop n r.bytes) (omega (arith, length-drop n r.bytes, w.fits, w.array))

-- Compacting drops the bytes that were used.
pub compact_raw_data-Compacts :
    (r : RawData) (n : ℕ) → IsRaw r → n ≤ r.size → Compacts (compact_raw_data r n) (drop n (kept r))
unfolding compact_raw_data
compact_raw_data-Compacts r zero w h = record { raw = w; keeps = refl }
compact_raw_data-Compacts r (suc m) w h =
    let e : uchar_sub r.size (suc m) ≡ r.size - suc m = omega (arith, w.fits) in
    let P : ℕ → Type 0 = λ s.
      Compacts
        (if nonzero s
          then record { size = s; bytes = moved r.bytes (suc m) s }
          else record { size = s; bytes = r.bytes })
        (drop (suc m) (kept r)) in
    let c : (suc m == 0) ≡ false = ground arith in
    rw (c) (
      subst P (sym e) (elim (Bool-cases (nonzero (r.size - suc m))) [
        | inl t ↦
            subst
              (λ (c : Bool).
                Compacts
                  (if c
                    then record {
                      size = r.size - suc m;
                      bytes = moved r.bytes (suc m) (r.size - suc m);
                    }
                    else record { size = r.size - suc m; bytes = r.bytes })
                  (drop (suc m) (kept r)))
              (sym t) (moved-Compacts r (suc m) w h)
        | inr t ↦
            subst
              (λ (c : Bool).
                Compacts
                  (if c
                    then record {
                      size = r.size - suc m;
                      bytes = moved r.bytes (suc m) (r.size - suc m);
                    }
                    else record { size = r.size - suc m; bytes = r.bytes })
                  (drop (suc m) (kept r)))
              (sym t)
              (let z : r.size - suc m ≡ 0 = ground arith in
                record {
                  raw = record { array = w.array; fits = omega (arith, w.fits) };
                  keeps =
                      ap (λ k. take k r.bytes) z
                      ∙ sym (drop_all (suc m) (kept r) (omega (arith, z, h, kept-length r w)));
                })
      ]))

-- Data that fits is added at the end.
pub record Adds (dst : RawData) (src : List ℕ) (res : ℕ × RawData) : Type 0 where
  pub all : res.0 ≡ length src
  pub raw : IsRaw res.1
  pub keeps : kept res.1 ≡ kept dst ++ src
  pub sized : res.1.size ≡ dst.size + length src

add_raw_data-cons :
    (r : RawData) (b : ℕ) (bs : List ℕ)
    → r.size + length (b ∷ bs) ≤ raw_size
    → add_raw_data r (b ∷ bs) ≡ (
      length (b ∷ bs),
      record { size = r.size + length (b ∷ bs); bytes = blit r.bytes r.size (b ∷ bs) },
    )
unfolding add_raw_data
add_raw_data-cons r b bs h =
    let t0 : (length (b ∷ bs) == 0) ≡ false = ground arith in
    let t1 : (raw_size - r.size == 0) ≡ false = ground arith in
    let l : min (raw_size - r.size) (length (b ∷ bs)) ≡ length (b ∷ bs) = ground arith in
    let t : take (length bs) bs ≡ bs = take_all (length bs) bs (omega arith) in
    let m : (r.size + length (b ∷ bs)) % 256 ≡ r.size + length (b ∷ bs) = omega arith in
    rw (t0, t1, l, t, m) refl

pub add_raw_data-Adds :
    (r : RawData) (bs : List ℕ)
    → IsRaw r
    → r.size + length bs ≤ raw_size
    → Adds r bs (add_raw_data r bs)
unfolding add_raw_data
add_raw_data-Adds r [] w h = record {
  all = refl;
  raw = w;
  keeps = sym (append-nil (kept r));
  sized = omega arith;
}
add_raw_data-Adds r (b ∷ bs) w h =
    subst (Adds r (b ∷ bs)) (sym (add_raw_data-cons r b bs h)) (record {
      all = refl;
      raw = record {
        array = length-blit r.bytes (b ∷ bs) r.size (omega (arith, w.array)) ∙ w.array;
        fits = h;
      };
      keeps = take-blit r.bytes (b ∷ bs) r.size (omega (arith, w.array, w.fits));
      sized = refl;
    })
