-- ===== src/Driver/Line.antt =====
-- What a receiving port hears from the line: `FlowFilterInit`, and the first part of the loop of
-- `CopyCharsWithEscape`, in com0com/sys/bufutils.c.
use com0com.Base.{
  ℕ, ◌-◌, Bool, true, false, not, ◌&&◌, List, [], ◌∷◌, get_or, ltb, leb, ◌==◌, nonzero,
  if◌then◌else◌, Option, none, some, bit_and, bit_or,
}
use com0com.Driver.Port.{Serial, IoPort, Wire, msb_dsr}
use com0com.Driver.Noise.{break_error, garbage_char, broke_char, get_broken_chars}

-- C0C_FLOW_FILTER; its pIoPort is the reader of the wire.
pub record FlowFilter : Type 0 where
  pub events : ℕ
  pub flags : ℕ
  pub last_xon_xoff : ℕ
  pub rx_count : ℕ

abbrev pub fl_auto_transmit : ℕ
fl_auto_transmit = 0x01

abbrev pub fl_null_stripping : ℕ
fl_null_stripping = 0x02

abbrev pub fl_ignore_received : ℕ
fl_ignore_received = 0x04

abbrev pub xchar_on : ℕ
xchar_on = 1

abbrev pub xchar_off : ℕ
xchar_off = 2

abbrev pub or_if : Bool → ℕ → ℕ → ℕ
or_if b flag x = if b then bit_or x flag else x

unfoldable pub flow_filter_init : Serial → IoPort → FlowFilter
flow_filter_init se p =
    let flow = p.hand_flow in
    record {
      events = 0;
      flags = or_if (nonzero (bit_and flow.flow_replace se.null_stripping)) fl_null_stripping (
          or_if (nonzero (bit_and flow.flow_replace se.auto_transmit)) fl_auto_transmit (
            or_if
              (nonzero (bit_and flow.control_hand_shake se.dsr_sensitivity)
                && (bit_and p.modem_status msb_dsr == 0))
              fl_ignore_received 0));
      last_xon_xoff = 0;
      rx_count = 0;
    }

abbrev masks : List ℕ
masks = 0x00 ∷ 0x01 ∷ 0x03 ∷ 0x07 ∷ 0x0F ∷ 0x1F ∷ 0x3F ∷ 0x7F ∷ 0xFF ∷ []

abbrev narrowed : IoPort → ℕ → ℕ
narrowed p n =
    if not p.all_data_bits && ltb p.line_control.word_length n
    then p.line_control.word_length
    else n

unfoldable pub data_mask : Wire → ℕ
data_mask w = get_or masks (narrowed w.writer (narrowed w.reader 8)) 0

-- The sending side: the wire, the filter, and the bytes that wait from pWriteBuf on (`none` for
-- NULL: noise on an idle line).
pub record Sender : Type 0 where
  pub wire : Wire
  pub filter : FlowFilter
  pub write_buf : Option (List ℕ)

abbrev on_event : Sender → ℕ → Sender
on_event s ev = record s { filter = record s.filter { events = bit_or s.filter.events ev } }

-- What the line carries: a character with its line status, or nothing.
pub data Heard : Type 0 where
  silence : Heard
  char_ : ℕ → ℕ → Heard

abbrev break_heard : Serial → Sender → Sender × Heard
break_heard se s =
    let (reader, lsr) = break_error se s.wire.reader 0 in
    (on_event (record s { wire = record s.wire { reader = reader } }) se.ev_break, char_ 0x00 lsr)

abbrev with_wire : Sender → Wire × ℕ × ℕ → Sender × Heard
with_wire s t = let (w, ch, lsr) = t in (record s { wire = w }, char_ ch lsr)

-- `curChar = *pWriteBuf++`, and what noise makes of it.
abbrev char_heard : Serial → Sender → List ℕ → Sender × Heard
char_heard se s [] = (s, silence)
char_heard se s (ch ∷ write) =
    let s' : Sender = record s { write_buf = some write } in
    if ltb 0 s.wire.writer.broke_chars_probability
    then with_wire s' (broke_char se s.wire ch 0)
    else (s', char_ ch 0)

-- The line is held in the BREAK state.
abbrev held_heard : Serial → Sender → Sender × Heard
held_heard se s =
    let p = s.wire.writer.broke_chars_probability in
    let (n, r) = get_broken_chars p 1 s.wire.rand in
    let s' : Sender = record s { wire = record s.wire { rand = r } } in
    if leb p 0 then (s, silence) else if n == 0 then (s', silence) else break_heard se s'

abbrev writer_set : Wire → IoPort → Wire
writer_set w p = record w { writer = p }

abbrev writing_heard : Serial → Sender → List ℕ → Sender × Heard
writing_heard se s write =
    let w = s.wire in
    if w.writer.send_break
    then break_heard se (record s {
      wire = record w {
        writer = record w.writer { send_break = false };
        reader = record w.reader { rcvd_break = true };
      };
    })
    else if bit_and w.writer.write_holding se.tx_waiting_on_break == 0
    then if nonzero w.writer.broke_chars
      then with_wire s (
          garbage_char se
            (writer_set w (record w.writer { broke_chars = w.writer.broke_chars - 1 })) 0)
      else char_heard se s write
    else held_heard se s

unfoldable pub heard : Serial → Sender → Sender × Heard
heard se s = elim s.write_buf [
  | some write ↦ writing_heard se s write
  | none ↦ if s.wire.reader.rcvd_break then break_heard se s else (s, char_ 0xFF 0)
]
