-- ===== src/Plugins/EscParse/Agreement.antt =====
-- What the messages before and between the data do to the parser (hub4com/plugins/escparse/filter.cpp).
use com0com.Base.{
  ==_refl, ℕ, true, List, [], ◌∷◌, nonzero, if◌then◌else◌, bit_and, bit_or, ◌≡◌, refl, sym, ap,
  subst, ◌∙◌, arith,
}
use com0com.Hub.Word.{
  go_o2i, go0_escape_mode, clear_bits, go1_o2v_modem_status, go1_o2v_line_status,
}
use com0com.Hub.Memory.{Memory, write}
use com0com.Hub.Msg
use com0com.Hub.Msg.{Msg}
use com0com.Hub.Chain.{messages}
use com0com.Hub.Chain.Content.{content, says}
use com0com.Plugins.Lsrmst.{Lsrmst, IsLsrmst}
use com0com.Plugins.EscParse.{State, options_add, convert}
use com0com.Plugins.EscParse.Frames.{Wants, Mode, text, decode, mode_after}
use com0com.Plugins.EscParse.Steps.{Tracks}
use com0com.Plugins.EscParse.Refine.{Ready, convert-decode}
use com0com.Plugins.EscParse.Method.{
  Filter, Outcome, get_in_opts, get_in_opts_0, in_line_data, in_method,
}

abbrev pub wants_of : ℕ → Wants
wants_of opts = record {
  options = opts;
  mask_mst = go1_o2v_modem_status opts;
  mask_lsr = go1_o2v_line_status opts;
}

-- The options after the filters behind have been asked.
abbrev pub agreed : ℕ → Filter → State → Memory → ℕ
agreed own f s mem = bit_or s.options (bit_and (mem own) f.acceptable_options)

abbrev accepted : ℕ → Filter → State → Msg → Memory → Outcome
accepted own f s m mem = record {
  st = record s {
    esc_mode = true;
    options = agreed own f s mem;
    mask_mst = go1_o2v_modem_status (agreed own f s mem);
    mask_lsr = go1_o2v_line_status (agreed own f s mem);
  };
  mem = write mem m.p_val (bit_or (mem m.p_val) go0_escape_mode);
  msgs = record m { pv_val = clear_bits m.pv_val go0_escape_mode } ∷ [];
}

get_in_opts_0-accepted :
    (own : ℕ) (f : Filter) (s : State) (m : Msg) (mem : Memory)
    → f.request_esc_mode ≡ true
    → nonzero (agreed own f s mem) ≡ true
    → nonzero (bit_and m.pv_val go0_escape_mode) ≡ true
    → get_in_opts_0 own f s m mem ≡ accepted own f s m mem
unfolding get_in_opts_0 options_add
get_in_opts_0-accepted own f s m mem r a b = rw (r, a, b) refl

in_method-get_in_opts_0 :
    (sc : Lsrmst) (own : ℕ) (f : Filter) (s : State) (m : Msg) (mem : Memory)
    → m.type ≡ Msg.get_in_opts
    → go_o2i m.pv_val ≡ 0
    → in_method sc own f s m mem ≡ get_in_opts_0 own f s m mem
unfolding in_method get_in_opts
in_method-get_in_opts_0 sc own f s m mem t i = rw (t, i) refl

-- What the parser and the port have agreed on.
abbrev pub Accepted : Lsrmst → ℕ → Filter → State → Msg → Memory → Outcome → Type 0
Accepted sc own f s m mem o =
    Ready sc (wants_of (agreed own f s mem)) text o.st
    × (o.mem m.p_val ≡ bit_or (mem m.p_val) go0_escape_mode)
    × (o.msgs ≡ record m { pv_val = clear_bits m.pv_val go0_escape_mode } ∷ [])

-- GET_IN_OPTS of set 0 that offers the escape mode, to an object between two messages whose filters
-- behind want some option: the object is ready for escaped data with exactly the agreed options, the
-- escape mode is requested from the port, and the filters behind are not offered it.
pub in_method-Ready :
    (sc : Lsrmst) (own : ℕ) (f : Filter) (s : State) (m : Msg) (mem : Memory)
    → m.type ≡ Msg.get_in_opts
    → go_o2i m.pv_val ≡ 0
    → f.request_esc_mode ≡ true
    → nonzero (agreed own f s mem) ≡ true
    → nonzero (bit_and m.pv_val go0_escape_mode) ≡ true
    → Tracks sc s text
    → s.line_data ≡ []
    → Accepted sc own f s m mem (in_method sc own f s m mem)
in_method-Ready sc own f s m mem t i r a b k l =
    let w : write mem m.p_val (bit_or (mem m.p_val) go0_escape_mode) m.p_val
        ≡ bit_or (mem m.p_val) go0_escape_mode =
      ap (λ c. if c then bit_or (mem m.p_val) go0_escape_mode else mem m.p_val) (==_refl m.p_val) in
    subst (Accepted sc own f s m mem)
      (sym
        (in_method-get_in_opts_0 sc own f s m mem t i ∙ get_in_opts_0-accepted own f s m mem r a b))
      (
        record {
          wants = record {
            has_esc_mode = refl;
            has_options = refl;
            has_mst = refl;
            has_lsr = refl;
          };
          tracks = k;
          flushed = l;
        },
        w,
        refl,
      )

in_method-line_data :
    (sc : Lsrmst) (own : ℕ) (f : Filter) (s : State) (m : Msg) (mem : Memory)
    → m.type ≡ Msg.line_data
    → in_method sc own f s m mem ≡ in_line_data sc f s m mem
unfolding in_method
in_method-line_data sc own f s m mem t = rw t refl

-- What a message of data comes to.
abbrev pub Decoded : Lsrmst → ℕ → Wants → Mode → List ℕ → Outcome → Type 0
Decoded sc esc w k bs o =
    (content o.msgs ≡ decode sc esc w k bs) × Ready sc w (mode_after sc esc k bs) o.st

content-nothing : (m : Msg) → m.type ≡ Msg.line_data → m.buf ≡ [] → content (m ∷ []) ≡ []
unfolding says
content-nothing m t e = ground arith

in_line_data-Decoded :
    (sc : Lsrmst) (f : Filter) (w : Wants)
    → IsLsrmst sc
    → (k : Mode) (s : State) (m : Msg) (mem : Memory) (bs : List ℕ) → Ready sc w k s
    → m.type ≡ Msg.line_data
    → m.buf ≡ bs
    → Decoded sc f.escape_char w k bs (in_line_data sc f s m mem)
unfolding in_line_data
in_line_data-Decoded sc f w q k s m mem [] h t e =
    let r : in_line_data sc f s m mem ≡ record { st = s; mem = mem; msgs = m ∷ [] } = rw e refl in
    subst (Decoded sc f.escape_char w k []) (sym r) (content-nothing m t e, h)
in_line_data-Decoded sc f w q k s m mem (b ∷ bs) h t e =
    let d = convert-decode sc f.escape_char w q k s h m in
    let c = convert sc f.escape_char s m in
    let r : in_line_data sc f s m mem ≡ record { st = c.st; mem = mem; msgs = messages c.chain } =
      ap
        (λ (l : List ℕ). elim l [
          | [] ↦ record { st = s; mem = mem; msgs = m ∷ [] }
          | x ∷ xs ↦ record { st = c.st; mem = mem; msgs = messages c.chain }
        ])
        e in
    subst (Decoded sc f.escape_char w k (b ∷ bs)) (sym r) (
      subst
        (λ l.
          Decoded sc f.escape_char w k l (record { st = c.st; mem = mem; msgs = messages c.chain }))
        e d)

-- A message of data that comes to a ready object: the messages in its place say what the grammar
-- reads from its bytes, and the object stays ready.
pub in_method-Decoded :
    (sc : Lsrmst) (own : ℕ) (f : Filter) (w : Wants)
    → IsLsrmst sc
    → (k : Mode) (s : State) (m : Msg) (mem : Memory) → Ready sc w k s
    → m.type ≡ Msg.line_data
    → Decoded sc f.escape_char w k m.buf (in_method sc own f s m mem)
in_method-Decoded sc own f w q k s m mem h t =
    subst (Decoded sc f.escape_char w k m.buf) (sym (in_method-line_data sc own f s m mem t))
      (in_line_data-Decoded sc f w q k s m mem m.buf h t refl)
