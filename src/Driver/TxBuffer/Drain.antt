-- ===== src/Driver/TxBuffer/Drain.antt =====
-- `ReadFromTxBuffer` of com0com/sys/bufutils.c on a line without noise and break.
use com0com.Base.{
  ℕ, zero, suc, ◌-◌, ◌≤◌, ◌<◌, true, false, List, [], ◌++◌, length, take, drop, ◌==◌, nonzero,
  if◌then◌else◌, Option, some, none, ◌≡◌, inl, inr, refl, sym, ap, ap₂, subst, ◌∙◌, arith,
  append_assoc, append-nil, take-add, take-drop, length-take, length-drop, length-append, drop-drop,
  lt_or_ge,
}
use com0com.Plugins.Lsrmst.{Lsrmst}
use com0com.Driver.RawData.{RawData, IsRaw, kept}
use com0com.Driver.Ring.{Holds, advance, live_run, live_run-Takes, p_busy-lt}
use com0com.Driver.Port.{Serial, Wire}
use com0com.Driver.Line.{Sender, data_mask}
use com0com.Driver.Output.{Out}
use com0com.Driver.Escape.{copy_chars_with_escape}
use com0com.Driver.Escape.Arrivals.{copy_chars_with_escape-Copies}
use com0com.Driver.Escape.Quiet.{IsQuiet, encode, arrivals-Sent}
use com0com.Driver.Buffer.Write.{encode-append}
use com0com.Driver.TxBuffer.{
  TxBuffer, tx_sent, tx_run, at_run, TxRead, read_before, tx_read_loop, read_from_tx_buffer,
}
use com0com.Driver.TxBuffer.Fill.{TxStored}

pub length-take_le : (n : ℕ) (xs : List ℕ) → length (take n xs) ≤ length xs
length-take_le n xs =
    omega (arith, ap length (take-drop n xs), length-append (take n xs) (drop n xs))

-- Of the live bytes `q` some were sent: they are gone from the registers.
pub record Sends (t : TxBuffer) (q : List ℕ) (k : ℕ) : Type 0 where
  pub bytes : take k (drop t.p_busy t.mem) ≡ take k q
  pub within : k ≤ length q
  pub stored : TxStored (tx_sent t k) (drop k q)

Sends-none : (t : TxBuffer) (q : List ℕ) → TxStored t q → Sends t q 0
Sends-none t q st =
    let l = p_busy-lt st.ring in
    let e : advance t.p_busy 0 t.p_end ≡ t.p_busy = ground (arith, st.end) in
    record {
      bytes = refl;
      within = omega arith;
      stored = record {
        ring = ap_ring (advance t.p_busy 0 t.p_end) (t.busy - 0) e (omega arith);
        end = st.end;
      };
    }
  where
    ap_ring : (p n : ℕ) → p ≡ t.p_busy → n ≡ t.busy → Holds t.mem p t.p_free n q
    ap_ring p n ep en =
        subst (λ x. Holds t.mem x t.p_free n q) (sym ep)
          (subst (λ x. Holds t.mem t.p_busy t.p_free x q) (sym en) st.ring)

pub Sends-some :
    (t : TxBuffer) (q : List ℕ) (k : ℕ)
    → TxStored t q
    → 0 < t.busy
    → k ≤ live_run t.p_busy t.p_free t.p_end t.busy
    → Sends t q k
Sends-some t q k st hb h =
    let r =
      live_run-Takes t.mem q t.p_busy t.p_free t.busy k st.ring hb
        (subst (λ e. k ≤ live_run t.p_busy t.p_free e t.busy) st.end h) in
    record {
      bytes = r.bytes;
      within = r.within;
      stored = record {
        ring =
            subst (λ e. Holds t.mem (advance t.p_busy k e) t.p_free (t.busy - k) (drop k q))
              (sym st.end) r.rest;
        end = st.end;
      };
    }

abbrev offered : TxBuffer → ℕ → ℕ
offered t limit = if nonzero t.busy then tx_run t limit else 0

Sends-offered :
    (t : TxBuffer) (q : List ℕ) (k limit : ℕ) → TxStored t q → k ≤ offered t limit → Sends t q k
Sends-offered t q k limit st h = elim (lt_or_ge 0 t.busy) [
  | inl hb ↦ Sends-some t q k st hb (ground arith)
  | inr hb ↦ let z : k ≡ 0 = ground arith in subst (Sends t q) (sym z) (Sends-none t q st)
]

offered-le : (t : TxBuffer) (limit : ℕ) → offered t limit ≤ limit
offered-le t limit = ground arith

module _ (sc : Lsrmst) (w : Wire) (flags : ℕ) where
  abbrev encoded : List ℕ → List ℕ
  encoded = encode sc w.reader flags (data_mask w)

  -- What a read has done: the bytes read, and those that wait after it, are those that waited
  -- before and the escaped ones of the bytes that were sent.
  pub record Drained (insert : RawData) (q : List ℕ) (read_length limit : ℕ) (r : TxRead)
      : Type 0 where
    pub says : r.out ++ kept r.insert ≡ kept insert ++ encoded (take r.write_done q)
    pub raw : IsRaw r.insert
    pub stored : TxStored r.tx (drop r.write_done q)
    pub sent : r.write_done ≤ length q
    pub limited : r.write_done ≤ limit
    pub fits : length r.out ≤ read_length
    pub same_wire : r.sender.wire ≡ w
    pub same_flags : r.sender.filter.flags ≡ flags

  abbrev pub Drains : RawData → List ℕ → ℕ → ℕ → Option TxRead → Type 0
  Drains insert q n limit none = ⊥
  Drains insert q n limit (some r) = Drained insert q n limit r

  -- One turn of the loop.
  record Turn (insert : RawData) (t : TxBuffer) (q : List ℕ) (read_length limit : ℕ)
      (res : Sender × Out × ℕ) : Type 0 where
    says : res.1.out ++ kept res.1.insert ≡ kept insert ++ encoded (take res.2 q)
    raw : IsRaw res.1.insert
    sends : Sends t q res.2
    limited : res.2 ≤ limit
    counted : res.1.done ≡ length res.1.out
    fits : length res.1.out ≤ read_length
    same_wire : res.0.wire ≡ w
    same_flags : res.0.filter.flags ≡ flags

  abbrev turn : Serial → RawData → TxBuffer → Sender → ℕ → ℕ → Sender × Out × ℕ
  turn se insert t s read_length limit =
      copy_chars_with_escape se sc (offered t limit) (at_run t s)
        (record { null = false; room = read_length; out = []; done = 0; insert = insert })

  turn-Turn :
      (se : Serial) (insert : RawData) (t : TxBuffer) (q : List ℕ) (s : Sender)
      (read_length limit : ℕ)
      → IsQuiet se w
      → IsRaw insert
      → TxStored t q
      → s.wire ≡ w
      → s.filter.flags ≡ flags
      → Turn insert t q read_length limit (turn se insert t s read_length limit)
  turn-Turn se insert t q s n limit quiet raw st ew ef =
      let o : Out = record { null = false; room = n; out = []; done = 0; insert = insert } in
      let s1 = at_run t s in
      let cs = drop t.p_busy t.mem in
      let res = copy_chars_with_escape se sc (offered t limit) s1 o in
      let k = res.2 in
      let c = copy_chars_with_escape-Copies se sc (offered t limit) s1 o refl raw refl in
      let sn = Sends-offered t q k limit st c.at_most in
      let l : k ≤ length cs =
        omega (arith, length-take_le k cs, ap length sn.bytes, length-take k q sn.within) in
      let a = arrivals-Sent se sc k s1 cs (subst (IsQuiet se) (sym ew) quiet) refl l in
      record {
        says =
            c.puts.says
            ∙ ap (◌++◌ (kept insert)) (
                a.bytes
                ∙ ap₂ (λ (v : Wire) (fl : ℕ). encode sc v.reader fl (data_mask v) (take k cs)) ew ef
                ∙ ap encoded sn.bytes);
        raw = c.puts.fits.raw;
        sends = sn;
        limited = omega (arith, c.at_most, offered-le t limit);
        counted = omega (arith, c.puts.filled, c.puts.counted);
        fits = omega (arith, c.puts.filled);
        same_wire = ap (λ (v : Sender). v.wire) c.sender ∙ a.wire ∙ ew;
        same_flags = ap (λ (v : Sender). v.filter.flags) c.sender ∙ a.flags ∙ ef;
      }

  Drains-before :
      (insert : RawData) (t : TxBuffer) (q : List ℕ) (n limit : ℕ) (res : Sender × Out × ℕ)
      (rest : Option TxRead)
      → Turn insert t q n limit res
      → Drains res.1.insert (drop res.2 q) (n - res.1.done) (limit - res.2) rest
      → Drains insert q n limit (read_before res.1.out res.2 rest)
  Drains-before insert t q n limit res none u h = h
  Drains-before insert t q n limit (s', o, k) (some r) u h =
      let j = r.write_done in
      record {
        says =
            append_assoc o.out r.out (kept r.insert)
            ∙ ap (◌++◌ o.out) h.says
            ∙ sym (append_assoc o.out (kept o.insert) (encoded (take j (drop k q))))
            ∙ ap (λ xs. xs ++ encoded (take j (drop k q))) u.says
            ∙ append_assoc (kept insert) (encoded (take k q)) (encoded (take j (drop k q)))
            ∙ ap (◌++◌ (kept insert)) (
                sym (encode-append sc w.reader flags (data_mask w) (take k q) (take j (drop k q)))
                ∙ ap encoded (sym (take-add k j q)));
        raw = h.raw;
        stored = subst (TxStored r.tx) (drop-drop k j q) h.stored;
        sent = omega (arith, h.sent, length-drop k q, u.sends.within);
        limited = omega (arith, h.limited, u.limited);
        fits = omega (arith, h.fits, u.fits, u.counted, length-append o.out r.out);
        same_wire = h.same_wire;
        same_flags = h.same_flags;
      }

  tx_read_loop-stop :
      (se : Serial) (fuel : ℕ) (insert : RawData) (t : TxBuffer) (s : Sender) (n limit : ℕ)
      → 0 < n
      → (turn se insert t s n limit).1.done ≡ 0
      → tx_read_loop se sc (suc fuel) insert t s n limit ≡ (
          let (s', o, done) = turn se insert t s n limit in
          some (record {
            out = o.out;
            insert = o.insert;
            tx = tx_sent t done;
            sender = s';
            write_done = done;
          }))
  unfolding tx_read_loop
  tx_read_loop-stop se fuel insert t s n limit hn h =
      let e : (n == 0) ≡ false = ground arith in
      let f : ((turn se insert t s n limit).1.done == 0) ≡ true = ground arith in rw (e, f) refl

  tx_read_loop-more :
      (se : Serial) (fuel : ℕ) (insert : RawData) (t : TxBuffer) (s : Sender) (n limit : ℕ)
      → 0 < n
      → 0 < (turn se insert t s n limit).1.done
      → tx_read_loop se sc (suc fuel) insert t s n limit ≡ (
          let (s', o, done) = turn se insert t s n limit in
          read_before o.out done
            (tx_read_loop se sc fuel o.insert (tx_sent t done) s' (n - o.done) (limit - done)))
  unfolding tx_read_loop
  tx_read_loop-more se fuel insert t s n limit hn h =
      let e : (n == 0) ≡ false = ground arith in
      let f : ((turn se insert t s n limit).1.done == 0) ≡ false = ground arith in rw (e, f) refl

  tx_read_loop-Drains :
      (se : Serial) (fuel : ℕ) (insert : RawData) (t : TxBuffer) (q : List ℕ) (s : Sender)
      (n limit : ℕ)
      → IsQuiet se w
      → IsRaw insert
      → TxStored t q
      → s.wire ≡ w
      → s.filter.flags ≡ flags
      → n < fuel
      → Drains insert q n limit (tx_read_loop se sc fuel insert t s n limit)
  unfolding tx_read_loop encode
  tx_read_loop-Drains se zero insert t q s n limit quiet raw st ew ef h = absurd (omega arith)
  tx_read_loop-Drains se (suc fuel) insert t q s zero limit quiet raw st ew ef h = record {
    says = sym (append-nil (kept insert));
    raw = raw;
    stored = st;
    sent = omega arith;
    limited = omega arith;
    fits = omega arith;
    same_wire = ew;
    same_flags = ef;
  }
  tx_read_loop-Drains se (suc fuel) insert t q s (suc m) limit quiet raw st ew ef h =
      let n = suc m in
      let res = turn se insert t s n limit in
      let u = turn-Turn se insert t q s n limit quiet raw st ew ef in
      elim (lt_or_ge 0 res.1.done) [
        | inl hd ↦
            subst (Drains insert q n limit)
              (sym (tx_read_loop-more se fuel insert t s n limit (omega arith) hd))
              (Drains-before insert t q n limit res _ u (
                tx_read_loop-Drains se fuel res.1.insert (tx_sent t res.2) (drop res.2 q) res.0
                  (n - res.1.done) (limit - res.2) quiet u.raw u.sends.stored u.same_wire
                  u.same_flags (omega (arith, hd, h))))
        | inr hd ↦
            subst (Drains insert q n limit)
              (sym (tx_read_loop-stop se fuel insert t s n limit (omega arith) (omega (arith, hd))))
              (record {
                says = u.says;
                raw = u.raw;
                stored = u.sends.stored;
                sent = u.sends.within;
                limited = u.limited;
                fits = u.fits;
                same_wire = u.same_wire;
                same_flags = u.same_flags;
              })
      ]

  -- `ReadFromTxBuffer` on a line without noise and break: it ends within the reader's room; what it
  -- gives, and what waits after it, are what waited before and the escaped ones of the bytes that
  -- left the registers, in order, and the bytes that did not leave stay.
  pub read_from_tx_buffer-Drains :
      (se : Serial) (insert : RawData) (t : TxBuffer) (q : List ℕ) (s : Sender) (n limit : ℕ)
      → IsQuiet se w
      → IsRaw insert
      → TxStored t q
      → s.wire ≡ w
      → s.filter.flags ≡ flags
      → Drains insert q n limit (read_from_tx_buffer se sc insert t s n limit)
  unfolding read_from_tx_buffer
  read_from_tx_buffer-Drains se insert t q s n limit quiet raw st ew ef =
      tx_read_loop-Drains se (suc n) insert t q s n limit quiet raw st ew ef (omega arith)
