-- ===== src/Driver/Escape/Quiet.antt =====
-- A line without noise and without a break: every turn of `CopyCharsWithEscape` of
-- com0com/sys/bufutils.c takes one byte, and the stream it makes is the escaped data stream that
-- hub4com's escparse filter reads.
use com0com.Base.{
  ℕ, zero, suc, ◌≤◌, false, List, [], ◌∷◌, ◌++◌, length, take, drop, some, bit_and, ◌≡◌, refl, sym,
  ap, ap₂, subst, ◌∙◌, arith,
}
use com0com.Plugins.Lsrmst.{Lsrmst}
use com0com.Driver.Port.{Serial, IoPort, Wire}
use com0com.Driver.Line.{FlowFilter, Sender, Heard, char_, heard, data_mask}
use com0com.Driver.Escape.{
  Fate, ignored, stripped, xoff, xon, received, fate, after, counted, deliver_filter,
}
use com0com.Driver.Escape.Arrivals.{char_bytes, turn_bytes, arrived, turns, arrivals}

-- No noise, no break.
pub record IsQuiet (se : Serial) (w : Wire) : Type 0 where
  pub no_break : w.writer.send_break ≡ false
  pub not_held : bit_and w.writer.write_holding se.tx_waiting_on_break ≡ 0
  pub no_garbage : w.writer.broke_chars ≡ 0
  pub no_noise : w.writer.broke_chars_probability ≡ 0

-- The stream, for the flags of the filter and the mask of the data bits.
unfoldable pub encode : Lsrmst → IoPort → ℕ → ℕ → List ℕ → List ℕ
encode sc p flags mask [] = []
encode sc p flags mask (c ∷ cs) =
    let cur = bit_and c mask in char_bytes sc p (fate p flags cur) cur ++ encode sc p flags mask cs

-- The characters that are received.
abbrev pub received_if : Fate → ℕ → List ℕ
received_if received cur = cur ∷ []
received_if _ cur = []

unfoldable pub received_chars : IoPort → ℕ → ℕ → List ℕ → List ℕ
received_chars p flags mask [] = []
received_chars p flags mask (c ∷ cs) =
    let cur = bit_and c mask in received_if (fate p flags cur) cur ++ received_chars p flags mask cs

module _ (se : Serial) (sc : Lsrmst) where
  heard_quiet :
      (s : Sender) (c : ℕ) (cs : List ℕ)
      → IsQuiet se s.wire
      → s.write_buf ≡ some (c ∷ cs)
      → heard se s ≡ (record s { write_buf = some cs }, char_ c 0)
  unfolding heard
  heard_quiet s c cs q e = rw (heard, e, q.no_break, q.not_held, q.no_garbage, q.no_noise) refl

  turn_filter-flags :
      (p : IoPort) (cur lsr : ℕ) (a : Fate) (f : FlowFilter)
      → (deliver_filter se p a cur (counted se f lsr)).flags ≡ f.flags
  turn_filter-flags p cur lsr received f = refl
  turn_filter-flags p cur lsr ignored f = refl
  turn_filter-flags p cur lsr stripped f = refl
  turn_filter-flags p cur lsr xoff f = refl
  turn_filter-flags p cur lsr xon f = refl

  -- The stream of so many turns, and where the sender stands after them.
  pub record Sent (n : ℕ) (s : Sender) (cs : List ℕ) (stream : List ℕ) (s' : Sender) : Type 0 where
    pub bytes : stream ≡ encode sc s.wire.reader s.filter.flags (data_mask s.wire) (take n cs)
    pub wire : s'.wire ≡ s.wire
    pub flags : s'.filter.flags ≡ s.filter.flags
    pub rest : s'.write_buf ≡ some (drop n cs)

  Sent-suc :
      (n : ℕ) (s s1 s' : Sender) (c : ℕ) (cs bs : List ℕ)
      → s1.wire ≡ s.wire
      → s1.filter.flags ≡ s.filter.flags
      → Sent n s1 cs bs s'
      → (let cur = bit_and c (data_mask s.wire) in
          Sent
            (suc n)
            s
            (c ∷ cs)
            (char_bytes sc s.wire.reader (fate s.wire.reader s.filter.flags cur) cur ++ bs)
            s')
  unfolding encode
  Sent-suc n s s1 s' c cs bs ew ef h =
      let cur = bit_and c (data_mask s.wire) in
      record {
        bytes =
            ap (◌++◌ (char_bytes sc s.wire.reader (fate s.wire.reader s.filter.flags cur) cur)) (
              h.bytes
              ∙ ap₂ (λ (w : Wire) (flags : ℕ). encode sc w.reader flags (data_mask w) (take n cs))
                  ew ef);
        wire = h.wire ∙ ew;
        flags = h.flags ∙ ef;
        rest = h.rest;
      }

  -- On a quiet line every turn sends one byte.
  pub arrivals-Sent :
      (n : ℕ) (s : Sender) (cs : List ℕ)
      → IsQuiet se s.wire
      → s.write_buf ≡ some cs
      → n ≤ length cs
      → Sent n s cs (arrivals se sc n s) (turns se n s)
  unfolding arrivals turns encode turn_bytes
  arrivals-Sent zero s cs q e h = record { bytes = refl; wire = refl; flags = refl; rest = e }
  arrivals-Sent (suc n) s [] q e h = absurd (omega arith)
  arrivals-Sent (suc n) s (c ∷ cs) q e h =
      subst
        (λ (t : Sender × Heard).
          Sent (suc n) s (c ∷ cs) (arrived se sc t ++ arrivals se sc n (after se t))
            (turns se n (after se t)))
        (sym (heard_quiet s c cs q e))
        (let s1 = after se (record s { write_buf = some cs }, char_ c 0) in
          let cur = bit_and c (data_mask s.wire) in
          Sent-suc n s s1 (turns se n s1) c cs (arrivals se sc n s1) refl
            (turn_filter-flags s.wire.reader cur 0 (fate s.wire.reader s.filter.flags cur) s.filter)
            (arrivals-Sent n s1 cs q refl (omega (arith, h))))
