-- ===== src/Driver/Escape.antt =====
-- `CopyCharsWithEscape` of com0com/sys/bufutils.c: characters on their way from a sending port into
-- the read buffer of the other one, with the insertions that escapeChar and insertMask ask for.
pub mod Arrivals
pub mod Quiet
pub mod Decode
use com0com.Base.{
  ℕ, zero, suc, ◌+◌, ◌-◌, ◌≤◌, Bool, true, false, not, ◌&&◌, ◌||◌, List, [], ◌∷◌, ◌++◌, length,
  take, drop, get_or, min, ltb, leb, ◌==◌, nonzero, if◌then◌else◌, Option, none, some, bit_and,
  bit_or,
}
use com0com.Plugins.Lsrmst.{Lsrmst}
use com0com.Driver.Port.{Serial, HandFlow, SpecialChars, IoPort, Wire}
use com0com.Driver.Output.{Out, put, put_char, flush_insert}
use com0com.Driver.Line.{
  FlowFilter, fl_auto_transmit, fl_null_stripping, fl_ignore_received, xchar_on, xchar_off, or_if,
  data_mask, Sender, Heard, silence, char_, heard,
}

abbrev pub insert_enable_lsr : ℕ
insert_enable_lsr = 0x1

abbrev pub insert_enable_lsr_bi : ℕ
insert_enable_lsr_bi = 0x400

abbrev pub is_break : ℕ → Bool
is_break lsr = nonzero (bit_and lsr 0x10)

-- The line status is to be inserted.
abbrev pub inserts_lsr : IoPort → ℕ → Bool
inserts_lsr p lsr =
    nonzero p.escape_char
    && (nonzero (bit_and p.insert_mask insert_enable_lsr)
        || (is_break lsr && nonzero (bit_and p.insert_mask insert_enable_lsr_bi)))

-- The line status as it is reported.
unfoldable pub reported_lsr : IoPort → ℕ → ℕ
reported_lsr p lsr =
    or_if (nonzero (bit_and p.insert_mask insert_enable_lsr_bi) && p.rcvd_break) 0x10 (
      or_if (leb p.tx_busy 1 && (p.tx_busy == 0)) 0x40
        (or_if (leb p.tx_busy 1) 0x20 (bit_or lsr 0x81)))

-- The part of the loop for a line status that is not 0.
abbrev pub report_error : Serial → Lsrmst → IoPort → ℕ → ℕ → Out → Out
report_error se sc p cur lsr o =
    let o' =
      if inserts_lsr p lsr
      then put o (p.escape_char ∷ sc.lsr_data ∷ reported_lsr p lsr ∷ cur ∷ [])
      else o in
    if is_break lsr
    then if nonzero (bit_and p.hand_flow.flow_replace se.break_char)
      then put_char o' p.special_chars.break_char
      else o'
    else if nonzero (bit_and p.hand_flow.flow_replace se.error_char)
    then put_char o' p.special_chars.error_char
    else o'

-- What becomes of a character.
pub data Fate : Type 0 where
  ignored stripped xoff xon received : Fate

unfoldable pub fate : IoPort → ℕ → ℕ → Fate
fate p flags cur =
    if nonzero (bit_and flags fl_ignore_received)
    then ignored
    else if (cur == 0) && nonzero (bit_and flags fl_null_stripping)
    then stripped
    else if nonzero (bit_and flags fl_auto_transmit) && (cur == p.special_chars.xoff_char)
    then xoff
    else if nonzero (bit_and flags fl_auto_transmit) && (cur == p.special_chars.xon_char)
    then xon
    else received

abbrev pub is_escape : IoPort → ℕ → Bool
is_escape p cur = nonzero p.escape_char && (cur == p.escape_char)

abbrev pub deliver : Lsrmst → IoPort → Fate → ℕ → Out → Out
deliver sc p received cur o =
    let o' = put_char o cur in if is_escape p cur then put_char o' sc.escape else o'
deliver sc p _ cur o = o

abbrev pub deliver_filter : Serial → IoPort → Fate → ℕ → FlowFilter → FlowFilter
deliver_filter se p xoff cur f = record f { last_xon_xoff = xchar_off }
deliver_filter se p xon cur f = record f { last_xon_xoff = xchar_on }
deliver_filter se p received cur f = record f {
  events =
      or_if (nonzero (bit_and p.wait_mask se.ev_rxflag) && (cur == p.special_chars.event_char))
        se.ev_rxflag (bit_or f.events se.ev_rxchar);
}
deliver_filter se p _ cur f = f

-- The character counted, and an error noted.
abbrev pub counted : Serial → FlowFilter → ℕ → FlowFilter
counted se f lsr = record f {
  rx_count = f.rx_count + 1;
  events = or_if (nonzero lsr) se.ev_err f.events;
}

-- One turn of the loop, for the filter and for the output.
abbrev pub turn_filter : Serial → IoPort → ℕ → ℕ → FlowFilter → FlowFilter
turn_filter se p cur lsr f =
    let f' = counted se f lsr in
    if nonzero lsr && inserts_lsr p lsr
    then f'
    else deliver_filter se p (fate p f'.flags cur) cur f'

unfoldable pub turn_out : Serial → Lsrmst → IoPort → FlowFilter → ℕ → ℕ → Out → Out
turn_out se sc p f cur lsr o =
    let o' = if nonzero lsr then report_error se sc p cur lsr o else o in
    if nonzero lsr && inserts_lsr p lsr then o' else deliver sc p (fate p f.flags cur) cur o'

abbrev pub masked : Sender → ℕ → ℕ
masked s ch = bit_and ch (data_mask s.wire)

abbrev pub after : Serial → Sender × Heard → Sender
after se t =
    let (s, h) = t in
    elim h [
      | silence ↦ s
      | char_ ch lsr ↦ record s { filter = turn_filter se s.wire.reader (masked s ch) lsr s.filter }
    ]

abbrev pub output : Serial → Lsrmst → Sender × Heard → Out → Out
output se sc t o =
    let (s, h) = t in
    elim h [
      | silence ↦ o
      | char_ ch lsr ↦ turn_out se sc s.wire.reader s.filter (masked s ch) lsr o
    ]

-- The loop over so many characters: the sender, the output, and how many turns were made.
unfoldable pub copy_loop : Serial → Lsrmst → ℕ → Sender → Out → Sender × Out × ℕ
copy_loop se sc zero s o = (s, o, 0)
copy_loop se sc (suc n) s o = elim (nonzero o.room || o.null) [
  | true ↦
      let t = heard se s in
      let (s', o', k) = copy_loop se sc n (after se t) (output se sc t o) in (s', o', suc k)
  | false ↦ (s, o, 0)
]

-- The call with a filter; `write_length` is at most the length of the bytes that wait.
unfoldable pub copy_chars_with_escape : Serial → Lsrmst → ℕ → Sender → Out → Sender × Out × ℕ
copy_chars_with_escape se sc write_length s o = copy_loop se sc write_length s (flush_insert o)
