-- ===== src/Plugins/EscParse/Stream.antt =====
-- The stream that `State::Convert` of hub4com/plugins/escparse/filter.cpp has put out so far, and
-- what its insertions add to it.
use com0com.Base.{
  ℕ, Bool, true, false, not, ◌&&◌, ◌||◌, List, [], ◌∷◌, ◌++◌, ◌==◌, ◌≡◌, refl, sym, ap, ◌∙◌, arith,
  nonzero, bit_and, append_assoc, append-nil, map-append,
}
use com0com.Hub.Word.{line_status_bi}
use com0com.Hub.Msg
use com0com.Hub.Msg.{Msg}
use com0com.Hub.Chain.Content.{
  Event, data_byte, value, bytes, said, said-insert_val, said-insert_buf,
}
use com0com.Plugins.EscParse.{
  State, Run, flush, append, append_if, put_val, put_val_if, reset, lsr_report,
}
use com0com.Plugins.EscParse.Frames.{event_if, lsr_events}

-- The stream so far: what the messages say, and the bytes not flushed yet.
unfoldable pub view : Run → List Event
view r = said r.chain ++ bytes r.st.line_data

pub view-flush : (r : Run) → view (flush r) ≡ view r
unfolding flush view
view-flush r = go r.st.line_data refl
  where
    go : (l : List ℕ) → r.st.line_data ≡ l → view (flush r) ≡ view r
    go [] e = rw (e, flush) (rw e)
    go (b ∷ bs) e = rw (e, flush) (rw append-nil (said-insert_buf (b ∷ bs) r.chain))

pub view-append : (ch : ℕ) (r : Run) → view (append ch r) ≡ view r ++ data_byte ch ∷ []
unfolding append view
view-append ch r =
    rw map-append (sym (append_assoc (said r.chain) (bytes r.st.line_data) (data_byte ch ∷ [])))

pub flush-line_data : (r : Run) → (flush r).st.line_data ≡ []
unfolding flush
flush-line_data r = ground arith

pub view_of_flushed : (r : Run) → r.st.line_data ≡ [] → view r ≡ said r.chain
unfolding view
view_of_flushed r e = rw e (append-nil (said r.chain))

pub view-put_val :
    (t v : ℕ) (r : Run)
    → (t == Msg.line_data) ≡ false
    → (t == Msg.empty) ≡ false
    → view (put_val t v r) ≡ view r ++ value t v ∷ []
unfolding put_val
view-put_val t v r d e =
    view_of_flushed (put_val t v r) (flush-line_data r)
    ∙ said-insert_val t v (flush r).chain d e
    ∙ ap (λ l. l ++ value t v ∷ [])
        (sym (view_of_flushed (flush r) (flush-line_data r)) ∙ view-flush r)

-- What an insertion leaves alone.
pub record Keeps (s t : State) : Type 0 where
  pub same_esc_mode : t.esc_mode ≡ s.esc_mode
  pub same_state : t.state ≡ s.state
  pub same_sub_state : t.sub_state ≡ s.sub_state
  pub same_code : t.code ≡ s.code
  pub same_data : t.data_bytes ≡ s.data_bytes
  pub same_options : t.options ≡ s.options
  pub same_mst : t.mask_mst ≡ s.mask_mst
  pub same_lsr : t.mask_lsr ≡ s.mask_lsr

pub flush-Keeps : (r : Run) → Keeps r.st (flush r).st
unfolding flush
flush-Keeps r = ground arith

-- `t` is `s` with these events added to the stream, and the object otherwise as it was.
pub record Adds (es : List Event) (s t : Run) : Type 0 where
  pub keeps : Keeps s.st t.st
  pub adds : view t ≡ view s ++ es

pub Adds-trans :
    {es fs : List Event} {r s t : Run} → Adds es r s → Adds fs s t → Adds (es ++ fs) r t
Adds-trans {es} {fs} {r} {s} {t} a b = record {
  keeps = ground arith;
  adds = b.adds ∙ ap (λ l. l ++ fs) a.adds ∙ append_assoc (view r) es fs;
}

pub put_val_if-Adds :
    (b : Bool) (t v : ℕ) (r : Run)
    → (t == Msg.line_data) ≡ false
    → (t == Msg.empty) ≡ false
    → Adds (event_if b (value t v)) r (put_val_if b t v r)
unfolding put_val_if
put_val_if-Adds true t v r d e = record {
  keeps = unfold put_val flush in ground arith;
  adds = view-put_val t v r d e;
}
put_val_if-Adds false t v r d e = record { keeps = ground arith; adds = sym (append-nil (view r)) }

pub append_if-Adds :
    (b : Bool) (ch : ℕ) (r : Run) → Adds (event_if b (data_byte ch)) r (append_if b ch r)
unfolding append_if
append_if-Adds true ch r = record { keeps = unfold append in ground arith; adds = view-append ch r }
append_if-Adds false ch r = record { keeps = ground arith; adds = sym (append-nil (view r)) }

pub view-reset : (r : Run) → view (reset r) ≡ view r
unfolding view
view-reset r = refl

-- A change of the object that leaves the stream alone.
pub view_same :
    (r t : Run) → t.chain ≡ r.chain → t.st.line_data ≡ r.st.line_data → view t ≡ view r ++ []
unfolding view
view_same r t c l = rw (c, l) (sym (append-nil (view r)))

-- The two reports of a line status, and the character behind it.
unfoldable pub lsr_report_events : (ch : ℕ) (r : Run) → List Event
lsr_report_events ch r =
    lsr_events
      (record { options = r.st.options; mask_mst = r.st.mask_mst; mask_lsr = r.st.mask_lsr })
      r.st.data_bytes.b0
    ++ event_if
        (r.st.sub_state == 2
          && (not (nonzero (bit_and r.st.data_bytes.b0 line_status_bi)) || nonzero ch))
        (data_byte ch)

-- `reset` behind the additions.
abbrev pub Ends : List Event → Run → Run → Type 0
Ends es r t = (s : Run) × Adds es r s × (t ≡ reset s)

pub lsr_report-Ends : (ch : ℕ) (r : Run) → Ends (lsr_report_events ch r) r (lsr_report ch r)
unfolding lsr_report lsr_report_events
lsr_report-Ends ch r = (
  _,
  Adds-trans
      (Adds-trans (put_val_if-Adds _ Msg.break_status _ r refl refl)
        (put_val_if-Adds _ Msg.line_status _ _ refl refl))
      (append_if-Adds _ ch _),
  refl,
)
