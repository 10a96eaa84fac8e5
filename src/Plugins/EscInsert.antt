-- ===== src/Plugins/EscInsert.antt =====
-- hub4com/plugins/escinsert/filter.cpp: the filter that turns line data and settings into an escaped
-- data stream. The insertions allocate and do not fail.
pub mod Frame
pub mod RoundTrip
use com0com.Base.{
  ℕ, ◌+◌, ◌/◌, ◌%◌, Bool, true, false, not, ◌&&◌, ◌||◌, List, [], ◌∷◌, ◌++◌, ◌==◌, nonzero,
  if◌then◌else◌, bit_and, bit_or, bit_xor, Option, none, some,
}
use com0com.Hub.Word.{
  byte, word, dword, not32, clear_bits, val2mask, mask2val, t2n, so_o2v_pin_state,
  so_o2v_line_status, so_set_br, so_set_lc, lc_mask_bytesize, lc_mask_parity, lc_mask_stopbits,
  lc2val_bytesize, lc2val_parity, lc2val_stopbits, line_status_bi, pin_state_break, sps_p2v_mst,
}
use com0com.Hub.Msg
use com0com.Hub.Msg.{Msg}
use com0com.Hub.Chain.{Chain, start, replace_buf, replace_none, insert_buf, new_buf}
use com0com.Plugins.Lsrmst.{Lsrmst, insert_rbr, insert_rlc}

pub record State : Type 0 where
  pub is_connected : Bool
  pub so_mask : ℕ
  pub pin_state : ℕ
  pub br : ℕ
  pub lc : ℕ

abbrev pub new_state : State
new_state = record { is_connected = false; so_mask = 0; pin_state = 0; br = 0; lc = 0 }

pub record Filter : Type 0 where
  pub so_mask : ℕ
  pub escape_char : ℕ

-- The pins CTS, DSR, RI and DCD, the break, the line status, the baud rate and the line control.
abbrev pub new_filter : Filter
new_filter = record { so_mask = 0x3fff100; escape_char = 0xff }

-- What each function writes; it is inserted as line data.
abbrev pub status_bytes : ℕ → ℕ → ℕ → List ℕ
status_bytes escape_char code val = escape_char ∷ code ∷ val ∷ []

abbrev pub rbr_bytes : ℕ → ℕ → List ℕ
rbr_bytes escape_char rbr =
    escape_char
    ∷ insert_rbr
    ∷ byte rbr
    ∷ byte (rbr / 0x100)
    ∷ byte (rbr / 0x10000)
    ∷ byte (rbr / 0x1000000)
    ∷ []

abbrev pub rlc_bytes : ℕ → ℕ → List ℕ
rlc_bytes escape_char rlc =
    escape_char ∷ insert_rlc ∷ lc2val_bytesize rlc ∷ lc2val_parity rlc ∷ lc2val_stopbits rlc ∷ []

-- `*ppMsg = pMsgInsertBuf(*ppMsg, HUB_MSG_TYPE_LINE_DATA, ...)`, where `*ppMsg` may be NULL.
abbrev insert_opt : List ℕ → Option Chain → Option Chain
insert_opt src none = some (start (new_buf Msg.line_data src))
insert_opt src (some c) = some (insert_buf Msg.line_data src c)

abbrev insert_if : Bool → List ℕ → Option Chain → Option Chain
insert_if b src e = if b then insert_opt src e else e

abbrev lc_masks : ℕ
lc_masks = 0x7000000

-- LINE_STATUS_BI or no bit, by PIN_STATE_BREAK.
abbrev break_byte : ℕ → ℕ
break_byte pin_state = if nonzero (bit_and pin_state pin_state_break) then line_status_bi else 0

-- The echo of CONNECT(TRUE): the present settings.
unfoldable pub insert_current : Lsrmst → ℕ → State → Option Chain
insert_current sc escape_char s =
    let has_br = nonzero (bit_and s.so_mask so_set_br) && nonzero s.br in
    let has_lc = nonzero (bit_and s.so_mask so_set_lc) && bit_and s.lc lc_masks == lc_masks in
    let has_mst = nonzero (bit_and s.so_mask 0xf000) in
    let has_lsr = nonzero (bit_and s.so_mask 0xff0100) in
    let e1 = insert_if has_br (rbr_bytes escape_char s.br) none in
    let e2 = insert_if has_lc (rlc_bytes escape_char s.lc) e1 in
    let e3 = insert_if has_mst (status_bytes escape_char sc.mst (sps_p2v_mst s.pin_state)) e2 in
    insert_if has_lsr (status_bytes escape_char sc.lsr_nodata (break_byte s.pin_state)) e3

-- `InMethod`: the new state and the echo. The message itself stays.
unfoldable pub in_method : Lsrmst → Filter → State → Msg → State × Option Chain
unfolding insert_current
in_method sc f s m =
    if t2n m.type == t2n Msg.connect
    then if nonzero m.val
      then (
        record s { is_connected = true },
        insert_current sc f.escape_char (record s { is_connected = true }),
      )
      else (record s { is_connected = false }, none)
    else (s, none)

abbrev set_val : ℕ → Chain → Chain
set_val v c = record c { here = record (c.here) { val = v } }

abbrev insert_here_if : Bool → List ℕ → Chain → Chain
insert_here_if b src c = if b then insert_buf Msg.line_data src c else c

unfoldable pub out_set_out_opts : Filter → State → Msg → State × Chain
out_set_out_opts f s m = (
  record s { so_mask = bit_or s.so_mask (bit_and m.val f.so_mask) },
  set_val (clear_bits m.val f.so_mask) (start m),
)

unfoldable pub out_set_br : Filter → State → Msg → State × Chain
unfolding replace_none
out_set_br f s m =
    let c = replace_none Msg.empty (start m) in
    if nonzero (bit_and s.so_mask so_set_br)
    then if s.br == m.val then (s, c) else (
      record s { br = m.val },
      insert_here_if s.is_connected (rbr_bytes f.escape_char m.val) c,
    )
    else (s, start m)

-- A part whose mask bit is missing is taken from the value before.
abbrev pub lc_part : ℕ → ℕ → ℕ → ℕ → ℕ
lc_part mask_bit part old val =
    if bit_and val mask_bit == 0 then bit_or val (bit_and old (bit_or part mask_bit)) else val

unfoldable pub merge_lc : ℕ → ℕ → ℕ
merge_lc old val =
    lc_part lc_mask_stopbits 0xff0000 old
      (lc_part lc_mask_parity 0xff00 old (lc_part lc_mask_bytesize 0xff old val))

unfoldable pub out_set_lc : Filter → State → Msg → State × Chain
unfolding replace_none merge_lc
out_set_lc f s m =
    let c = replace_none Msg.empty (start m) in
    let v = merge_lc s.lc m.val in
    if nonzero (bit_and s.so_mask so_set_lc)
    then if s.lc == v
      then (s, c)
      else (record s { lc = v }, insert_here_if s.is_connected (rlc_bytes f.escape_char v) c)
    else (s, start m)

unfoldable pub out_set_pin_state : Lsrmst → Filter → State → Msg → State × Chain
out_set_pin_state sc f s m =
    let mask = bit_and (mask2val m.val) (so_o2v_pin_state s.so_mask) in
    let pins = bit_or (bit_and (word m.val) mask) (bit_and s.pin_state (not32 mask)) in
    let changed = bit_xor s.pin_state pins in
    let c = set_val (clear_bits m.val (val2mask mask)) (start m) in
    let brk = break_byte pins in
    let sends_mst = s.is_connected && nonzero (sps_p2v_mst changed) in
    let sends_brk =
      s.is_connected
      && nonzero (bit_and changed pin_state_break)
      && (brk == 0 || bit_and s.so_mask 0x100000 == 0) in
    let c1 = insert_here_if sends_mst (status_bytes f.escape_char sc.mst (sps_p2v_mst pins)) c in
    let c2 = insert_here_if sends_brk (status_bytes f.escape_char sc.lsr_nodata brk) c1 in
    if nonzero mask
    then if nonzero changed then (record s { pin_state = pins }, c2) else (s, c)
    else (s, start m)

unfoldable pub out_set_lsr : Lsrmst → Filter → State → Msg → State × Chain
out_set_lsr sc f s m =
    let so = so_o2v_line_status s.so_mask in
    let lsr = bit_and (bit_and (byte m.val) (byte (mask2val m.val))) so in
    let c = set_val (clear_bits m.val (val2mask so)) (start m) in
    (
      s,
      insert_here_if (nonzero lsr && s.is_connected) (status_bytes f.escape_char sc.lsr_nodata lsr)
          c,
    )

-- The loop of LINE_DATA.
unfoldable pub escape_bytes : Lsrmst → ℕ → List ℕ → List ℕ
escape_bytes sc escape_char [] = []
escape_bytes sc escape_char (ch ∷ bs) =
    let rest = escape_bytes sc escape_char bs in
    if ch == escape_char then ch ∷ sc.escape ∷ rest else ch ∷ rest

unfoldable pub out_line_data : Lsrmst → Filter → State → Msg → State × Chain
unfolding escape_bytes replace_buf
out_line_data sc f s m = elim m.buf [
  | [] ↦ (s, start m)
  | b ∷ bs ↦ (s, replace_buf Msg.line_data (escape_bytes sc f.escape_char (b ∷ bs)) (start m))
]

-- `OutMethod`.
unfoldable pub out_method : Lsrmst → Filter → State → Msg → State × Chain
unfolding out_set_out_opts out_set_br out_set_lc out_set_pin_state out_set_lsr out_line_data
out_method sc f s m =
    let n = t2n m.type in
    if n == t2n Msg.set_out_opts
    then out_set_out_opts f s m
    else if n == t2n Msg.set_br
    then out_set_br f s m
    else if n == t2n Msg.set_lc
    then out_set_lc f s m
    else if n == t2n Msg.set_pin_state
    then out_set_pin_state sc f s m
    else if n == t2n Msg.set_lsr
    then out_set_lsr sc f s m
    else if n == t2n Msg.line_data
    then out_line_data sc f s m
    else (s, start m)
