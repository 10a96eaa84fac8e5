-- ===== src/Plugins/EscParse/Steps.antt =====
-- One round of the loop of `State::Convert` in hub4com/plugins/escparse/filter.cpp, in each mode of
-- the grammar of `Frames`.
use com0com.Base.{
  ℕ, true, List, ◌++◌, ◌==◌, ◌≡◌, refl, ap, ap₂, ◌∙◌, arith, nonzero, bit_and, bit_or, append-nil,
  Bool-cases, inl, inr,
}
use com0com.Hub.Word.{val2mask, go1_rbr_status, go1_rlc_status}
use com0com.Hub.Msg
use com0com.Hub.Msg.{Msg}
use com0com.Hub.Chain.Content.{Event, value}
use com0com.Plugins.Lsrmst.{Lsrmst, IsLsrmst, insert_rbr, insert_rlc}
use com0com.Plugins.EscParse.{
  State, Run, store_at, append, put_val_if, store, to_ulong, rlc_val, reset, lsr_report, in_lsr,
  in_mst, in_rbr, in_rlc, step,
}
use com0com.Plugins.EscParse.Frames.{
  Wants, Mode, text, escape, lsr, nodata, mst, rbr0, rlc0, lsr_char, rbr1, rlc1, rbr2, rlc2, rbr3,
  next, emitted, event_if, lsr_events,
}
use com0com.Plugins.EscParse.Stream.{
  view, Adds, Ends, view-reset, view-append, view_same, put_val_if-Adds, lsr_report_events,
  lsr_report-Ends,
}

pub record HasWants (w : Wants) (s : State) : Type 0 where
  pub has_esc_mode : s.esc_mode ≡ true
  pub has_options : s.options ≡ w.options
  pub has_mst : s.mask_mst ≡ w.mask_mst
  pub has_lsr : s.mask_lsr ≡ w.mask_lsr

-- The mode that the fields of the object stand for.
abbrev pub Tracks : Lsrmst → State → Mode → Type 0
Tracks sc s text = (s.state ≡ 0) × (s.sub_state ≡ 0)
Tracks sc s escape = (s.state ≡ 1) × (s.sub_state ≡ 0)
Tracks sc s lsr = (s.state ≡ 2) × (s.sub_state ≡ 1) × (s.code ≡ sc.lsr_data)
Tracks sc s (lsr_char a) =
    (s.state ≡ 2) × (s.sub_state ≡ 2) × (s.code ≡ sc.lsr_data) × (s.data_bytes.b0 ≡ a)
Tracks sc s nodata = (s.state ≡ 2) × (s.sub_state ≡ 1) × (s.code ≡ sc.lsr_nodata)
Tracks sc s mst = (s.state ≡ 2) × (s.sub_state ≡ 1) × (s.code ≡ sc.mst)
Tracks sc s rbr0 = (s.state ≡ 2) × (s.sub_state ≡ 1) × (s.code ≡ insert_rbr)
Tracks sc s (rbr1 a) =
    (s.state ≡ 2) × (s.sub_state ≡ 2) × (s.code ≡ insert_rbr) × (s.data_bytes.b0 ≡ a)
Tracks sc s (rbr2 a b) =
    (s.state ≡ 2)
    × (s.sub_state ≡ 3)
    × (s.code ≡ insert_rbr)
    × (s.data_bytes.b0 ≡ a)
    × (s.data_bytes.b1 ≡ b)
Tracks sc s (rbr3 a b c) =
    (s.state ≡ 2)
    × (s.sub_state ≡ 4)
    × (s.code ≡ insert_rbr)
    × (s.data_bytes.b0 ≡ a)
    × (s.data_bytes.b1 ≡ b)
    × (s.data_bytes.b2 ≡ c)
Tracks sc s rlc0 = (s.state ≡ 2) × (s.sub_state ≡ 1) × (s.code ≡ insert_rlc)
Tracks sc s (rlc1 a) =
    (s.state ≡ 2) × (s.sub_state ≡ 2) × (s.code ≡ insert_rlc) × (s.data_bytes.b0 ≡ a)
Tracks sc s (rlc2 a b) =
    (s.state ≡ 2)
    × (s.sub_state ≡ 3)
    × (s.code ≡ insert_rlc)
    × (s.data_bytes.b0 ≡ a)
    × (s.data_bytes.b1 ≡ b)

-- What a byte does to the object in mode `m`.
pub record Steps (sc : Lsrmst) (esc : ℕ) (w : Wants) (m : Mode) (ch : ℕ) (r t : Run) : Type 0 where
  pub tracks : Tracks sc t.st (next sc esc m ch)
  pub wants : HasWants w t.st
  pub sees : view t ≡ view r ++ emitted sc esc w m ch

pub HasWants-Adds :
    {es : List Event} (w : Wants) {r t : Run} → HasWants w r.st → Adds es r t → HasWants w t.st
HasWants-Adds w h a = ground arith

module _ (sc : Lsrmst) (esc : ℕ) (w : Wants) (ch : ℕ) where
  -- The end of a frame.
  pub Steps-Ends :
      (m : Mode) (es : List Event) (r s t : Run)
      → Ends es s t
      → HasWants w s.st
      → view s ≡ view r
      → next sc esc m ch ≡ text
      → es ≡ emitted sc esc w m ch
      → Steps sc esc w m ch r t
  Steps-Ends m es r s t (u, a, e) h v n d = record {
    tracks = rw (n, e) (refl, refl);
    wants = rw e (ground (arith, HasWants-Adds w h a));
    sees = ap view e ∙ view-reset u ∙ a.adds ∙ ap₂ ◌++◌ v d;
  }

  module _ (r : Run) (q : IsLsrmst sc) (h : HasWants w r.st) where
    pub step-text : Tracks sc r.st text → Steps sc esc w text ch r (step sc esc r ch)
    unfolding step append
    step-text t = record {
      tracks = ground arith;
      wants = ground arith;
      sees = elim (Bool-cases (ch == esc)) [
        | inl e ↦ view_same r _ (ground arith) (ground arith) ∙ ap (◌++◌ (view r)) (ground arith)
        | inr e ↦
            let a : step sc esc r ch ≡ append ch r = ground arith in
            ap view a ∙ view-append ch r ∙ ap (◌++◌ (view r)) (ground arith)
      ];
    }

    pub step-escape : Tracks sc r.st escape → Steps sc esc w escape ch r (step sc esc r ch)
    unfolding step append in_lsr in_mst in_rbr in_rlc
    step-escape t = record {
      tracks = ground arith;
      wants = ground arith;
      sees = elim (Bool-cases (ch == sc.escape)) [
        | inl e ↦
            let s = record r { st = record (r.st) { code = ch; state = 2 } } in
            let a : step sc esc r ch ≡ reset (append esc s) = ground arith in
            let same : view s ≡ view r = unfold view in refl in
            ap view a ∙ view-reset (append esc s) ∙ view-append esc s ∙ ap₂ ◌++◌ same (ground arith)
        | inr e ↦ view_same r _ (ground arith) (ground arith) ∙ ap (◌++◌ (view r)) (ground arith)
      ];
    }

    pub step-lsr : Tracks sc r.st lsr → Steps sc esc w lsr ch r (step sc esc r ch)
    unfolding step in_lsr
    step-lsr t = record {
      tracks = ground arith;
      wants = ground arith;
      sees = view_same r _ (ground arith) (ground arith);
    }

    pub step-rbr0 : Tracks sc r.st rbr0 → Steps sc esc w rbr0 ch r (step sc esc r ch)
    unfolding step in_rbr
    step-rbr0 t = record {
      tracks = ground arith;
      wants = ground arith;
      sees = view_same r _ (ground arith) (ground arith);
    }

    pub step-rbr1 :
        (a : ℕ) → Tracks sc r.st (rbr1 a) → Steps sc esc w (rbr1 a) ch r (step sc esc r ch)
    unfolding step in_rbr
    step-rbr1 a t = record {
      tracks = ground arith;
      wants = ground arith;
      sees = view_same r _ (ground arith) (ground arith);
    }

    pub step-rbr2 :
        (a b : ℕ) → Tracks sc r.st (rbr2 a b) → Steps sc esc w (rbr2 a b) ch r (step sc esc r ch)
    unfolding step in_rbr
    step-rbr2 a b t = record {
      tracks = ground arith;
      wants = ground arith;
      sees = view_same r _ (ground arith) (ground arith);
    }

    pub step-rlc0 : Tracks sc r.st rlc0 → Steps sc esc w rlc0 ch r (step sc esc r ch)
    unfolding step in_rlc
    step-rlc0 t = record {
      tracks = ground arith;
      wants = ground arith;
      sees = view_same r _ (ground arith) (ground arith);
    }

    pub step-rlc1 :
        (a : ℕ) → Tracks sc r.st (rlc1 a) → Steps sc esc w (rlc1 a) ch r (step sc esc r ch)
    unfolding step in_rlc
    step-rlc1 a t = record {
      tracks = ground arith;
      wants = ground arith;
      sees = view_same r _ (ground arith) (ground arith);
    }

    pub step-nodata : Tracks sc r.st nodata → Steps sc esc w nodata ch r (step sc esc r ch)
    unfolding step in_lsr store lsr_report_events
    step-nodata t =
        let s = store_at 0 ch r in
        let e : step sc esc r ch ≡ lsr_report ch s = ground arith in
        rw e (
          Steps-Ends nodata _ r s _ (lsr_report-Ends ch s) (ground arith) (unfold view in refl) refl
            (ground (arith, append-nil (lsr_events w ch))))

    pub step-lsr_char :
        (a : ℕ) → Tracks sc r.st (lsr_char a) → Steps sc esc w (lsr_char a) ch r (step sc esc r ch)
    unfolding step in_lsr lsr_report_events
    step-lsr_char a t =
        let e : step sc esc r ch ≡ lsr_report ch r = ground arith in
        rw e (
          Steps-Ends (lsr_char a) _ r r _ (lsr_report-Ends ch r) (ground arith) refl refl
            (ground arith))

    pub step-mst : Tracks sc r.st mst → Steps sc esc w mst ch r (step sc esc r ch)
    unfolding step in_mst
    step-mst t =
        let b = nonzero r.st.mask_mst in
        let v = bit_or ch (val2mask r.st.mask_mst) in
        let e : step sc esc r ch ≡ reset (put_val_if b Msg.modem_status v r) = ground arith in
        Steps-Ends mst (event_if b (value Msg.modem_status v)) r r _
          (_, put_val_if-Adds b Msg.modem_status v r refl refl, e) (ground arith) refl refl
          (ground arith)

    pub step-rbr3 :
        (a b c : ℕ)
        → Tracks sc r.st (rbr3 a b c)
        → Steps sc esc w (rbr3 a b c) ch r (step sc esc r ch)
    unfolding step in_rbr store to_ulong
    step-rbr3 a b c t =
        let s = store_at 3 ch r in
        let x = nonzero (bit_and r.st.options go1_rbr_status) in
        let v = to_ulong s.st.data_bytes in
        let e : step sc esc r ch ≡ reset (put_val_if x Msg.rbr_status v s) = ground arith in
        Steps-Ends (rbr3 a b c) (event_if x (value Msg.rbr_status v)) r s _
          (_, put_val_if-Adds x Msg.rbr_status v s refl refl, e) (ground arith)
          (unfold view in refl) refl (ground arith)

    pub step-rlc2 :
        (a b : ℕ) → Tracks sc r.st (rlc2 a b) → Steps sc esc w (rlc2 a b) ch r (step sc esc r ch)
    unfolding step in_rlc store rlc_val
    step-rlc2 a b t =
        let s = store_at 2 ch r in
        let x = nonzero (bit_and r.st.options go1_rlc_status) in
        let v = rlc_val s.st.data_bytes in
        let e : step sc esc r ch ≡ reset (put_val_if x Msg.rlc_status v s) = ground arith in
        Steps-Ends (rlc2 a b) (event_if x (value Msg.rlc_status v)) r s _
          (_, put_val_if-Adds x Msg.rlc_status v s refl refl, e) (ground arith)
          (unfold view in refl) refl (ground arith)
