-- ===== src/Driver/TxBuffer/Transmit.antt =====
-- `MoveFromTxBuffer` of com0com/sys/bufutils.c, without pOverrun, on a line without noise and break.
use com0com.Base.{
  ℕ, zero, suc, ◌-◌, ◌≤◌, ◌<◌, Bool, true, false, List, ◌++◌, length, take, drop, min, ◌==◌,
  if◌then◌else◌, Option, some, none, ◌≡◌, ◌⊎◌, inl, inr, refl, sym, ap, ap₂, subst, ◌∙◌, arith,
  append_assoc, append-nil, take-add, length-take, length-drop, drop-drop, lt_or_ge, Bool-cases,
}
use com0com.Plugins.Lsrmst.{Lsrmst}
use com0com.Driver.Ring.{live_run, live_run-positive}
use com0com.Driver.Port.{Serial, Wire}
use com0com.Driver.Line.{Sender, data_mask}
use com0com.Driver.Escape.Quiet.{IsQuiet, encode}
use com0com.Driver.Buffer.{Buffer, Written, write_to_buffer}
use com0com.Driver.Buffer.Queue.{Queued, busy-Holds}
use com0com.Driver.Buffer.Write.{Writes, encode-append, write_to_buffer-Writes}
use com0com.Driver.TxBuffer.{
  TxBuffer, tx_sent, tx_run, at_run, Moved, move_before, tx_move_loop, move_from_tx_buffer,
}
use com0com.Driver.TxBuffer.Fill.{TxStored}
use com0com.Driver.TxBuffer.Drain.{Sends-some, length-take_le}

module _ (sc : Lsrmst) (w : Wire) (flags : ℕ) where
  abbrev encoded : List ℕ → List ℕ
  encoded = encode sc w.reader flags (data_mask w)

  -- What a move has done: the escaped bytes of what left the registers `q` are at the end of the
  -- queue `xs`; as many left as the limit lets, unless the buffer is full up to
  -- its own limit `full`, over which it is not filled; it had `start` bytes in it before.
  pub record Transmitted (full start : ℕ) (xs q : List ℕ) (limit : ℕ) (r : Moved) : Type 0 where
    pub queue : Queued r.buf (xs ++ encoded (take r.done q))
    pub stored : TxStored r.tx (drop r.done q)
    pub within : r.done ≤ length q
    pub limited : r.done ≤ limit
    pub same_limit : r.buf.limit ≡ full
    pub bounded : (r.buf.busy ≤ full) ⊎ (r.buf.busy ≡ start)
    pub stops : (r.done ≡ min limit (length q)) ⊎ (full ≤ r.buf.busy)

  abbrev pub Transmits : ℕ → ℕ → List ℕ → List ℕ → ℕ → Option Moved → Type 0
  Transmits full start xs q limit none = ⊥
  Transmits full start xs q limit (some r) = Transmitted full start xs q limit r

  abbrev moved_part : Buffer → TxBuffer → Sender → ℕ → Option Moved
  moved_part b t s overrun =
      some (record { buf = b; tx = t; sender = s; done = 0; overrun = overrun })

  stopped-Transmits :
      (b : Buffer) (t : TxBuffer) (s : Sender) (xs q : List ℕ) (limit overrun : ℕ)
      → Queued b xs
      → TxStored t q
      → (0 ≡ min limit (length q)) ⊎ (b.limit ≤ b.busy)
      → Transmits b.limit b.busy xs q limit (moved_part b t s overrun)
  unfolding encode
  stopped-Transmits b t s xs q limit overrun u st stop = record {
    queue = subst (Queued b) (sym (append-nil xs)) u;
    stored = st;
    within = omega arith;
    limited = omega arith;
    same_limit = refl;
    bounded = inr refl;
    stops = stop;
  }

  Transmits-before :
      (full start : ℕ) (xs q : List ℕ) (limit : ℕ) (v : Written) (o : Option Moved)
      → v.done ≤ length q
      → v.done ≤ limit
      → (v.buf.busy ≤ full) ⊎ (v.buf.busy ≡ start)
      → Transmits full v.buf.busy (xs ++ encoded (take v.done q)) (drop v.done q) (limit - v.done) o
      → Transmits full start xs q limit (move_before v o)
  Transmits-before full start xs q limit v none hq hl hb h = h
  Transmits-before full start xs q limit v (some r) hq hl hb h =
      let k = v.done in
      let j = r.done in
      let ld = length-drop k q in
      record {
        queue =
            subst (Queued r.buf)
              (append_assoc xs (encoded (take k q)) (encoded (take j (drop k q)))
                ∙ ap (◌++◌ xs) (
                    sym
                      (encode-append sc w.reader flags (data_mask w) (take k q) (take j (drop k q)))
                    ∙ ap encoded (sym (take-add k j q))))
              h.queue;
        stored = subst (TxStored r.tx) (drop-drop k j q) h.stored;
        within = omega (arith, h.within, ld);
        limited = omega (arith, h.limited);
        same_limit = h.same_limit;
        bounded = elim h.bounded [
          | inl e ↦ inl e
          | inr e ↦ elim hb [ inl d ↦ inl (omega (arith, d, e)) | inr d ↦ inr (e ∙ d) ]
        ];
        stops = elim h.stops [ inl e ↦ inl (ground (arith, e, ld)) | inr e ↦ inr e ];
      }

  -- A turn: what `WriteToBuffer` took has left the registers.
  abbrev after_write : Serial → ℕ → TxBuffer → ℕ → Option Written → Option Moved
  after_write se fuel t limit o = elim o [
    | none ↦ none
    | some v ↦
        let rest =
          tx_move_loop se sc false fuel v.buf (tx_sent t v.done) v.sender (limit - v.done) in
        if v.done == 0 then moved_part v.buf t v.sender v.overrun else move_before v rest
  ]

  abbrev body : Serial → ℕ → Buffer → TxBuffer → Sender → ℕ → Bool → Bool → Option Moved
  body se fuel b t s limit c d =
      if c
      then moved_part b t s 0
      else if d
      then moved_part b t s 0
      else after_write se fuel t limit (write_to_buffer se sc false b (at_run t s) (tx_run t limit))

  tx_move_loop-idle :
      (se : Serial) (fuel : ℕ) (b : Buffer) (t : TxBuffer) (s : Sender) (limit : ℕ)
      → (t.busy ≡ 0) ⊎ (tx_run t limit ≡ 0)
      → tx_move_loop se sc false (suc fuel) b t s limit ≡ moved_part b t s 0
  unfolding tx_move_loop
  tx_move_loop-idle se fuel b t s limit (inl h) =
      let e : (t.busy == 0) ≡ true = ground arith in
      ap (λ (c : Bool). body se fuel b t s limit c (tx_run t limit == 0)) e
  tx_move_loop-idle se fuel b t s limit (inr h) =
      let e : (tx_run t limit == 0) ≡ true = ground arith in
      elim (Bool-cases (t.busy == 0)) [
        | inl c ↦ ap₂ (body se fuel b t s limit) c e
        | inr c ↦ ap₂ (body se fuel b t s limit) c e
      ]

  tx_move_loop-busy :
      (se : Serial) (fuel : ℕ) (b : Buffer) (t : TxBuffer) (s : Sender) (limit : ℕ)
      → 0 < t.busy
      → 0 < tx_run t limit
      → tx_move_loop se sc false (suc fuel) b t s limit
        ≡ after_write se fuel t limit (write_to_buffer se sc false b (at_run t s) (tx_run t limit))
  unfolding tx_move_loop
  tx_move_loop-busy se fuel b t s limit hb hr =
      let e : (t.busy == 0) ≡ false = ground arith in
      let f : (tx_run t limit == 0) ≡ false = ground arith in ap₂ (body se fuel b t s limit) e f

  after_write-Transmits :
      (se : Serial) (fuel : ℕ) (t : TxBuffer) (xs q : List ℕ) (full start limit n : ℕ)
      (o : Option Written)
      → TxStored t q
      → 0 < t.busy
      → 0 < n
      → n ≤ live_run t.p_busy t.p_free t.p_end t.busy
      → n ≤ limit
      → Writes sc full start w flags xs (drop t.p_busy t.mem) n o
      → ((v : Written)
          → 0 < v.done
          → v.done ≤ n
          → v.sender.wire ≡ w
          → v.sender.filter.flags ≡ flags
          → v.buf.limit ≡ full
          → TxStored (tx_sent t v.done) (drop v.done q)
          → Queued v.buf (xs ++ encoded (take v.done q))
          → Transmits full v.buf.busy
              (xs ++ encoded (take v.done q))
              (drop v.done q)
              (limit - v.done)
              (tx_move_loop se sc false fuel v.buf (tx_sent t v.done) v.sender (limit - v.done)))
      → Transmits full start xs q limit (after_write se fuel t limit o)
  after_write-Transmits se fuel t xs q full start limit n none st hb hn hr hl h ih = h
  after_write-Transmits se fuel t xs q full start limit n (some v) st hb hn hr hl h ih =
      let k = v.done in
      let sn = Sends-some t q k st hb (omega (arith, h.used)) in
      let u : Queued v.buf (xs ++ encoded (take k q)) =
        subst (λ (ys : List ℕ). Queued v.buf (xs ++ encoded ys)) sn.bytes h.queue in
      elim (lt_or_ge 0 k) [
        | inl hk ↦
            let f : (k == 0) ≡ false = ground arith in
            let rest = tx_move_loop se sc false fuel v.buf (tx_sent t k) v.sender (limit - k) in
            subst (Transmits full start xs q limit)
              (ap
                (λ (c : Bool).
                  if c then moved_part v.buf t v.sender v.overrun else move_before v rest)
                (sym f))
              (Transmits-before full start xs q limit v rest sn.within (omega (arith, h.used))
                h.bounded (ih v hk h.used h.same_wire h.same_flags h.same_limit sn.stored u))
        | inr hk ↦
            let f : (k == 0) ≡ true = ground arith in
            let rest = tx_move_loop se sc false fuel v.buf (tx_sent t k) v.sender (limit - k) in
            let z : k ≡ 0 = omega arith in
            subst (Transmits full start xs q limit)
              (ap
                (λ (c : Bool).
                  if c then moved_part v.buf t v.sender v.overrun else move_before v rest)
                (sym f))
              (record {
                queue = subst (λ (j : ℕ). Queued v.buf (xs ++ encoded (take j q))) z u;
                stored = st;
                within = omega arith;
                limited = omega arith;
                same_limit = h.same_limit;
                bounded = h.bounded;
                stops = elim h.stops [ inl e ↦ absurd (omega (arith, e, z, hn)) | inr e ↦ inr e ];
              })
      ]

  tx_move_loop-Transmits :
      (se : Serial) (fuel : ℕ) (b : Buffer) (t : TxBuffer) (s : Sender) (xs q : List ℕ)
      (full limit : ℕ)
      → IsQuiet se w
      → s.wire ≡ w
      → s.filter.flags ≡ flags
      → b.limit ≡ full
      → Queued b xs
      → TxStored t q
      → t.busy < fuel
      → Transmits full b.busy xs q limit (tx_move_loop se sc false fuel b t s limit)
  tx_move_loop-Transmits se zero b t s xs q full limit quiet ew ef eb u st h = absurd (omega arith)
  tx_move_loop-Transmits se (suc fuel) b t s xs q full limit quiet ew ef eb u st h =
      let lq = busy-Holds st.ring in
      let idle : ((t.busy ≡ 0) ⊎ (tx_run t limit ≡ 0))
          → (0 ≡ min limit (length q))
          → Transmits full b.busy xs q limit (tx_move_loop se sc false (suc fuel) b t s limit) =
        λ i e.
          subst (Transmits full b.busy xs q limit) (sym (tx_move_loop-idle se fuel b t s limit i)) (
            subst (λ (m : ℕ). Transmits m b.busy xs q limit (moved_part b t s 0)) eb
              (stopped-Transmits b t s xs q limit 0 u st (inl e))) in
      elim (lt_or_ge 0 t.busy) [
        | inr hb ↦ idle (inl (omega arith)) (ground (arith, lq))
        | inl hb ↦
            let pos : 0 < live_run t.p_busy t.p_free t.p_end t.busy =
              subst (λ e. 0 < live_run t.p_busy t.p_free e t.busy) (sym st.end)
                (live_run-positive t.mem q t.p_busy t.p_free t.busy st.ring hb) in
            elim (lt_or_ge 0 limit) [
              | inr hl ↦ idle (inr (ground arith)) (ground arith)
              | inl hl ↦
                  let n = tx_run t limit in
                  let hn : 0 < n = ground (arith, pos) in
                  let hr : n ≤ live_run t.p_busy t.p_free t.p_end t.busy = ground arith in
                  let sn = Sends-some t q n st hb hr in
                  let cs = drop t.p_busy t.mem in
                  let lc : n ≤ length cs =
                    omega
                      (arith, length-take_le n cs, ap length sn.bytes, length-take n q sn.within) in
                  let wr =
                    write_to_buffer-Writes se sc n b s.wire s.filter xs cs
                      (subst (IsQuiet se) (sym ew) quiet) lc u in
                  let wr' : Writes sc full b.busy w flags xs cs n
                      (write_to_buffer se sc false b (at_run t s) n) =
                    subst
                      (λ (m : ℕ).
                        Writes sc m b.busy w flags xs cs n
                          (write_to_buffer se sc false b (at_run t s) n))
                      eb
                      (subst
                        (λ (fl : ℕ).
                          Writes sc b.limit b.busy w fl xs cs n
                            (write_to_buffer se sc false b (at_run t s) n))
                        ef
                        (subst
                          (λ (v : Wire).
                            Writes sc b.limit b.busy v s.filter.flags xs cs n
                              (write_to_buffer se sc false b (at_run t s) n))
                          ew wr)) in
                  subst (Transmits full b.busy xs q limit)
                    (sym (tx_move_loop-busy se fuel b t s limit hb hn))
                    (after_write-Transmits se fuel t xs q full b.busy limit n
                      (write_to_buffer se sc false b (at_run t s) n) st hb hn hr (ground arith) wr'
                      (λ v hk hv vw vf vl vst vu.
                        tx_move_loop-Transmits se fuel v.buf (tx_sent t v.done) v.sender
                          (xs ++ encoded (take v.done q)) (drop v.done q) full (limit - v.done)
                          quiet vw vf vl vu vst (omega (arith, hk, hb, h))))
            ]
      ]

  -- `MoveFromTxBuffer` without pOverrun, on a line without noise and break: it ends; the escaped
  -- bytes of what left the transmit registers are at the end of the read buffer's queue, in order;
  -- and as many bytes left as the limit allows, unless the read buffer is full up to its own limit,
  -- over which it is not filled.
  pub move_from_tx_buffer-Transmits :
      (se : Serial) (b : Buffer) (t : TxBuffer) (s : Sender) (xs q : List ℕ) (limit : ℕ)
      → IsQuiet se w
      → s.wire ≡ w
      → s.filter.flags ≡ flags
      → Queued b xs
      → TxStored t q
      → Transmits b.limit b.busy xs q limit (move_from_tx_buffer se sc false b t s limit)
  unfolding move_from_tx_buffer
  move_from_tx_buffer-Transmits se b t s xs q limit quiet ew ef u st =
      tx_move_loop-Transmits se (suc t.busy) b t s xs q b.limit limit quiet ew ef refl u st
        (omega arith)
