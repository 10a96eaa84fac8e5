-- ===== src/Plugins/EscParse/Session.antt =====
-- A session of the filter of hub4com/plugins/escparse/filter.cpp: the options are agreed on with the
-- port, and then it sends data.
use com0com.Base.{ℕ, true, List, [], ◌∷◌, ◌++◌, nonzero, bit_and, bit_or, ◌≡◌, refl, sym, ap₂, ◌∙◌}
use com0com.Hub.Word.{go_o2i, go0_escape_mode}
use com0com.Hub.Memory.{Memory}
use com0com.Hub.Msg
use com0com.Hub.Msg.{Msg, new}
use com0com.Hub.Chain.Content.{Event, content}
use com0com.Plugins.Lsrmst.{Lsrmst, IsLsrmst}
use com0com.Plugins.EscParse.{State}
use com0com.Plugins.EscParse.Frames.{Wants, Mode, text, decode, mode_after}
use com0com.Plugins.EscParse.Steps.{Tracks}
use com0com.Plugins.EscParse.Refine.{Ready, decode-append}
use com0com.Plugins.EscParse.Method.{Filter, in_method}
use com0com.Plugins.EscParse.Agreement.{wants_of, agreed, in_method-Ready, in_method-Decoded}

abbrev pub line : List ℕ → Msg
line bs = record new { type = Msg.line_data; buf = bs }

abbrev pub flatten : List (List ℕ) → List ℕ
flatten [] = []
flatten (b ∷ bs) = b ++ flatten bs

-- What `InMethod` passes on for messages of data that come one behind the other.
abbrev pub received : Lsrmst → ℕ → Filter → State → Memory → List (List ℕ) → List Event
received sc own f s mem [] = []
received sc own f s mem (b ∷ bs) =
    let o = in_method sc own f s (line b) mem in content o.msgs ++ received sc own f o.st o.mem bs

received-decode :
    (sc : Lsrmst) (own : ℕ) (f : Filter) (w : Wants)
    → IsLsrmst sc
    → (k : Mode) (s : State) (mem : Memory) (bs : List (List ℕ)) → Ready sc w k s
    → received sc own f s mem bs ≡ decode sc f.escape_char w k (flatten bs)
received-decode sc own f w q k s mem [] h = refl
received-decode sc own f w q k s mem (b ∷ bs) h =
    let d = in_method-Decoded sc own f w q k s (line b) mem h refl in
    ap₂ ◌++◌ d.0 (received-decode sc own f w q (mode_after sc f.escape_char k b) _ _ bs d.1)
    ∙ sym (decode-append sc f.escape_char w k b (flatten bs))

-- GET_IN_OPTS of set 0 that offers the escape mode comes to an object between two messages, whose
-- filters behind want some of the acceptable options: the escape mode is requested from the port, and
-- from then on, however the data is cut into messages, what is passed on is what the grammar reads
-- in all of it, with just the agreed options.
pub received-agreed :
    (sc : Lsrmst) (own : ℕ) (f : Filter) (s : State) (m : Msg) (mem : Memory) (bs : List (List ℕ))
    → IsLsrmst sc
    → m.type ≡ Msg.get_in_opts
    → go_o2i m.pv_val ≡ 0
    → f.request_esc_mode ≡ true
    → nonzero (agreed own f s mem) ≡ true
    → nonzero (bit_and m.pv_val go0_escape_mode) ≡ true
    → Tracks sc s text
    → s.line_data ≡ []
    → let o = in_method sc own f s m mem in
      (o.mem m.p_val ≡ bit_or (mem m.p_val) go0_escape_mode)
      × (received sc own f o.st o.mem bs
          ≡ decode sc f.escape_char (wants_of (agreed own f s mem)) text (flatten bs))
received-agreed sc own f s m mem bs q t i r a b k l =
    let h = in_method-Ready sc own f s m mem t i r a b k l in
    (h.1, received-decode sc own f (wants_of (agreed own f s mem)) q text _ _ bs h.0)
