-- ===== src/Plugins/EscParse/Refine.antt =====
-- `State::Convert` of hub4com/plugins/escparse/filter.cpp against the grammar of `Frames`.
use com0com.Base.{
  ℕ, true, List, [], ◌∷◌, ◌++◌, ◌≡◌, refl, sym, ap, ap₂, ◌∙◌, arith, if◌then◌else◌, append_assoc,
  append-nil, ap₂, subst,
}
use com0com.Hub.Msg
use com0com.Hub.Msg.{Msg}
use com0com.Hub.Chain.{messages, start, replace_buf}
use com0com.Hub.Chain.Content.{says, Event, content, content-messages}
use com0com.Plugins.Lsrmst.{Lsrmst, IsLsrmst}
use com0com.Plugins.EscParse.{State, Run, flush, step, steps, convert, convert_bytes}
use com0com.Plugins.EscParse.Frames.{
  Wants, Mode, text, escape, lsr, nodata, mst, rbr0, rlc0, lsr_char, rbr1, rlc1, rbr2, rlc2, rbr3,
  next, emitted, mode_after, decode,
}
use com0com.Plugins.EscParse.Stream.{
  view, Keeps, flush-Keeps, flush-line_data, view-flush, view_of_flushed,
}
use com0com.Plugins.EscParse.Steps.{
  HasWants, Tracks, Steps, step-text, step-escape, step-lsr, step-rbr0, step-rbr1, step-rbr2,
  step-rlc0, step-rlc1, step-nodata, step-lsr_char, step-mst, step-rbr3, step-rlc2,
}

module _ (sc : Lsrmst) (esc : ℕ) (w : Wants) (q : IsLsrmst sc) where
  step-Steps :
      (m : Mode) (ch : ℕ) (r : Run)
      → HasWants w r.st
      → Tracks sc r.st m
      → Steps sc esc w m ch r (step sc esc r ch)
  step-Steps text ch r h t = step-text sc esc w ch r q h t
  step-Steps escape ch r h t = step-escape sc esc w ch r q h t
  step-Steps lsr ch r h t = step-lsr sc esc w ch r q h t
  step-Steps nodata ch r h t = step-nodata sc esc w ch r q h t
  step-Steps mst ch r h t = step-mst sc esc w ch r q h t
  step-Steps rbr0 ch r h t = step-rbr0 sc esc w ch r q h t
  step-Steps rlc0 ch r h t = step-rlc0 sc esc w ch r q h t
  step-Steps (lsr_char a) ch r h t = step-lsr_char sc esc w ch r q h a t
  step-Steps (rbr1 a) ch r h t = step-rbr1 sc esc w ch r q h a t
  step-Steps (rlc1 a) ch r h t = step-rlc1 sc esc w ch r q h a t
  step-Steps (rbr2 a b) ch r h t = step-rbr2 sc esc w ch r q h a b t
  step-Steps (rlc2 a b) ch r h t = step-rlc2 sc esc w ch r q h a b t
  step-Steps (rbr3 a b c) ch r h t = step-rbr3 sc esc w ch r q h a b c t

  -- The whole loop.
  steps-decode :
      (bs : List ℕ) (m : Mode) (r : Run)
      → HasWants w r.st
      → Tracks sc r.st m
      → let t = steps sc esc r bs in
        Tracks sc t.st (mode_after sc esc m bs)
        × HasWants w t.st
        × (view t ≡ view r ++ decode sc esc w m bs)
  unfolding steps
  steps-decode [] m r h t = (t, h, sym (append-nil (view r)))
  steps-decode (ch ∷ bs) m r h t =
      let s = step-Steps m ch r h t in
      let (t', h', v) = steps-decode bs (next sc esc m ch) (step sc esc r ch) s.wants s.tracks in
      (
        t',
        h',
        v
            ∙ ap (λ l. l ++ decode sc esc w (next sc esc m ch) bs) s.sees
            ∙ append_assoc (view r) (emitted sc esc w m ch) (decode sc esc w (next sc esc m ch) bs),
      )

-- `Tracks` reads only what an insertion keeps.
Tracks-Keeps : (sc : Lsrmst) (m : Mode) {s t : State} → Keeps s t → Tracks sc s m → Tracks sc t m
Tracks-Keeps sc text k h = ground arith
Tracks-Keeps sc _ k h = ground arith

pub mode_after-append :
    (sc : Lsrmst) (esc : ℕ) (m : Mode) (xs ys : List ℕ)
    → mode_after sc esc m (xs ++ ys) ≡ mode_after sc esc (mode_after sc esc m xs) ys
mode_after-append sc esc m [] ys = refl
mode_after-append sc esc m (x ∷ xs) ys = mode_after-append sc esc (next sc esc m x) xs ys

-- The grammar does not see where its input is cut.
pub decode-append :
    (sc : Lsrmst) (esc : ℕ) (w : Wants) (m : Mode) (xs ys : List ℕ)
    → decode sc esc w m (xs ++ ys)
      ≡ decode sc esc w m xs ++ decode sc esc w (mode_after sc esc m xs) ys
decode-append sc esc w m [] ys = refl
decode-append sc esc w m (x ∷ xs) ys =
    ap (◌++◌ (emitted sc esc w m x)) (decode-append sc esc w (next sc esc m x) xs ys)
    ∙ sym (append_assoc (emitted sc esc w m x) _ _)

-- The object between two messages: it is in the escape mode, reports what `w` wants and is in mode
-- `m` of the grammar, with nothing kept back.
pub record Ready (sc : Lsrmst) (w : Wants) (m : Mode) (s : State) : Type 0 where
  pub wants : HasWants w s
  pub tracks : Tracks sc s m
  pub flushed : s.line_data ≡ []

-- What a filter's chain says.
abbrev pub output : Run → List Event
output r = content (messages r.chain)

-- The end of `Convert`.
flush-Ready :
    (sc : Lsrmst) (w : Wants) (m : Mode) (r : Run)
    → HasWants w r.st
    → Tracks sc r.st m
    → (output (flush r) ≡ view r) × Ready sc w m (flush r).st
flush-Ready sc w m r h t =
    let k = flush-Keeps r in
    let d = flush-line_data r in
    (
      content-messages (flush r).chain ∙ sym (view_of_flushed (flush r) d) ∙ view-flush r,
      record { wants = ground arith; tracks = Tracks-Keeps sc m k t; flushed = d },
    )

view-begin :
    (s : State) (msg : Msg)
    → s.line_data ≡ []
    → view (record { st = s; chain = replace_buf Msg.line_data [] (start msg) }) ≡ []
unfolding view replace_buf says
view-begin s msg e = rw e

convert_escaping :
    (sc : Lsrmst) (esc : ℕ) (s : State) (msg : Msg)
    → s.esc_mode ≡ true
    → convert sc esc s msg ≡ convert_bytes sc esc s msg
unfolding convert
convert_escaping sc esc s msg e =
    ap (λ b. if b then convert_bytes sc esc s msg else record { st = s; chain = start msg }) e

convert_bytes-decode :
    (sc : Lsrmst) (esc : ℕ) (w : Wants) (q : IsLsrmst sc) (m : Mode) (s : State) (msg : Msg)
    → Ready sc w m s
    → (output (convert_bytes sc esc s msg) ≡ decode sc esc w m msg.buf)
      × Ready sc w (mode_after sc esc m msg.buf) (convert_bytes sc esc s msg).st
unfolding convert_bytes
convert_bytes-decode sc esc w q m s msg h =
    let r : Run = record { st = s; chain = replace_buf Msg.line_data [] (start msg) } in
    let (t, k, v) = steps-decode sc esc w q msg.buf m r h.wants h.tracks in
    let (o, f) = flush-Ready sc w (mode_after sc esc m msg.buf) (steps sc esc r msg.buf) k t in
    (o ∙ v ∙ ap (λ l. l ++ decode sc esc w m msg.buf) (view-begin s msg h.flushed), f)

-- In the escape mode `Convert` puts out what the grammar reads from the bytes of the message, and
-- leaves the object ready, in the mode where those bytes lead.
pub convert-decode :
    (sc : Lsrmst) (esc : ℕ) (w : Wants)
    → IsLsrmst sc
    → (m : Mode) (s : State) → Ready sc w m s
    → (msg : Msg)
    → (output (convert sc esc s msg) ≡ decode sc esc w m msg.buf)
      × Ready sc w (mode_after sc esc m msg.buf) (convert sc esc s msg).st
convert-decode sc esc w q m s h msg =
    rw (convert_escaping sc esc s msg h.wants.has_esc_mode)
      (convert_bytes-decode sc esc w q m s msg h)

-- Two messages in a row say what one message with the bytes of both says, and leave the object ready
-- in the same mode: how the stream is cut into messages does not matter.
pub convert-append :
    (sc : Lsrmst) (esc : ℕ) (w : Wants)
    → IsLsrmst sc
    → (m : Mode) (s : State) → Ready sc w m s
    → (a b c : Msg) → c.buf ≡ a.buf ++ b.buf
    → let s' = (convert sc esc s a).st in
      (output (convert sc esc s a) ++ output (convert sc esc s' b) ≡ output (convert sc esc s c))
      × Ready sc w (mode_after sc esc m c.buf) (convert sc esc s' b).st
      × Ready sc w (mode_after sc esc m c.buf) (convert sc esc s c).st
convert-append sc esc w q m s h a b c e =
    let (oa, ra) = convert-decode sc esc w q m s h a in
    let (ob, rb) = convert-decode sc esc w q (mode_after sc esc m a.buf) _ ra b in
    let (oc, rc) = convert-decode sc esc w q m s h c in
    let e' : mode_after sc esc m c.buf ≡ mode_after sc esc (mode_after sc esc m a.buf) b.buf =
      ap (mode_after sc esc m) e ∙ mode_after-append sc esc m a.buf b.buf in
    (
      ap₂ ◌++◌ oa ob
          ∙ sym (decode-append sc esc w m a.buf b.buf)
          ∙ ap (decode sc esc w m) (sym e)
          ∙ sym oc,
      subst (λ k. Ready sc w k (convert sc esc (convert sc esc s a).st b).st) (sym e') rb,
      rc,
    )
