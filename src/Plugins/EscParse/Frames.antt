-- ===== src/Plugins/EscParse/Frames.antt =====
-- The escaped data stream as a grammar: plain bytes, and frames that start with the escape
-- character. `next` says where a byte leads, and `emitted` what it completes.
use com0com.Base.{
  ℕ, ◌+◌, ◌*◌, Bool, not, ◌||◌, List, [], ◌∷◌, ◌++◌, ◌==◌, nonzero, if◌then◌else◌, bit_and, bit_or,
}
use com0com.Hub.Word.{val2mask, go1_rbr_status, go1_rlc_status, go1_break_status, line_status_bi}
use com0com.Hub.Msg
use com0com.Hub.Chain.Content.{Event, data_byte, value}
use com0com.Plugins.Lsrmst.{Lsrmst, insert_rbr, insert_rlc}
use com0com.Plugins.EscParse.{rlc_val}

-- What the filter was asked to report.
pub record Wants : Type 0 where
  pub options : ℕ
  pub mask_mst : ℕ
  pub mask_lsr : ℕ

-- Which byte comes next; a frame keeps the bytes that it has.
pub data Mode : Type 0 where
  text escape lsr nodata mst rbr0 rlc0 : Mode
  lsr_char rbr1 rlc1 : ℕ → Mode
  rbr2 rlc2 : ℕ → ℕ → Mode
  rbr3 : ℕ → ℕ → ℕ → Mode

abbrev opens : Lsrmst → ℕ → Mode
opens sc c =
    if c == sc.escape
    then text
    else if c == sc.lsr_data
    then lsr
    else if c == sc.lsr_nodata
    then nodata
    else if c == sc.mst
    then mst
    else if c == insert_rbr
    then rbr0
    else if c == insert_rlc
    then rlc0
    else text

abbrev pub next : Lsrmst → ℕ → Mode → ℕ → Mode
next sc esc text ch = if ch == esc then escape else text
next sc esc escape ch = opens sc ch
next sc esc lsr ch = lsr_char ch
next sc esc rbr0 ch = rbr1 ch
next sc esc (rbr1 a) ch = rbr2 a ch
next sc esc (rbr2 a b) ch = rbr3 a b ch
next sc esc rlc0 ch = rlc1 ch
next sc esc (rlc1 a) ch = rlc2 a ch
next sc esc _ ch = text

abbrev pub event_if : Bool → Event → List Event
event_if b e = if b then e ∷ [] else []

-- A line status: a break indication and a status, if they are wanted.
abbrev pub lsr_events : Wants → ℕ → List Event
lsr_events w s =
    event_if (nonzero (bit_and w.options go1_break_status))
      (value Msg.break_status (if nonzero (bit_and s line_status_bi) then 1 else 0))
    ++ event_if (nonzero (bit_and s w.mask_lsr))
        (value Msg.line_status (bit_or s (val2mask w.mask_lsr)))

-- The character behind a line status, unless it is the zero of a break.
abbrev pub char_events : ℕ → ℕ → List Event
char_events s ch = event_if (not (nonzero (bit_and s line_status_bi)) || nonzero ch) (data_byte ch)

abbrev pub emitted : Lsrmst → ℕ → Wants → Mode → ℕ → List Event
emitted sc esc w text ch = if ch == esc then [] else data_byte ch ∷ []
emitted sc esc w escape ch = event_if (ch == sc.escape) (data_byte esc)
emitted sc esc w nodata ch = lsr_events w ch
emitted sc esc w (lsr_char s) ch = lsr_events w s ++ char_events s ch
emitted sc esc w mst ch =
    event_if (nonzero w.mask_mst) (value Msg.modem_status (bit_or ch (val2mask w.mask_mst)))
emitted sc esc w (rbr3 a b c) ch =
    event_if (nonzero (bit_and w.options go1_rbr_status))
      (value Msg.rbr_status (a + b * 0x100 + c * 0x10000 + ch * 0x1000000))
emitted sc esc w (rlc2 a b) ch =
    event_if (nonzero (bit_and w.options go1_rlc_status))
      (value Msg.rlc_status (rlc_val (record { b0 = a; b1 = b; b2 = ch; b3 = 0 })))
emitted sc esc w _ ch = []

abbrev pub mode_after : Lsrmst → ℕ → Mode → List ℕ → Mode
mode_after sc esc m [] = m
mode_after sc esc m (ch ∷ bs) = mode_after sc esc (next sc esc m ch) bs

abbrev pub decode : Lsrmst → ℕ → Wants → Mode → List ℕ → List Event
decode sc esc w m [] = []
decode sc esc w m (ch ∷ bs) = emitted sc esc w m ch ++ decode sc esc w (next sc esc m ch) bs
