-- ===== src/Plugins/EscParse.antt =====
-- hub4com/plugins/escparse/filter.cpp: `State::Flush` and `State::Convert`, which take an escaped
-- data stream apart. The insertions allocate and do not fail, so the tests for NULL never leave.
pub mod Frames
pub mod Stream
pub mod Steps
pub mod Refine
pub mod Method
pub mod Agreement
pub mod Session
use com0com.Base.{
  ℕ, ◌+◌, ◌-◌, ◌*◌, Bool, true, false, not, ◌&&◌, ◌||◌, List, [], ◌∷◌, ◌++◌, ◌==◌, leb, ltb,
  nonzero, if◌then◌else◌, bit_and, bit_or,
}
use com0com.Hub.Word.{
  val2mask, go1_rbr_status, go1_rlc_status, go1_break_status, go1_o2v_modem_status,
  go1_o2v_line_status, clear_bits, line_status_bi, lc_mask_bytesize, lc_mask_parity,
  lc_mask_stopbits, val2lc_bytesize, val2lc_parity, val2lc_stopbits,
}
use com0com.Hub.Msg
use com0com.Hub.Msg.{Msg}
use com0com.Hub.Chain.{Chain, start, replace_buf, insert_buf, insert_val}
use com0com.Plugins.Lsrmst.{Lsrmst, insert_rbr, insert_rlc}

-- `BYTE data[sizeof(ULONG)]`.
pub record Quad : Type 0 where
  pub b0 : ℕ
  pub b1 : ℕ
  pub b2 : ℕ
  pub b3 : ℕ

-- `data[i] = ch`.
unfoldable pub store : ℕ → ℕ → Quad → Quad
store i ch q =
    if i == 0
    then record q { b0 = ch }
    else if i == 1
    then record q { b1 = ch }
    else if i == 2
    then record q { b2 = ch }
    else if i == 3
    then record q { b3 = ch }
    else q

-- `*(ULONG *)data`, low byte first.
unfoldable pub to_ulong : Quad → ℕ
to_ulong q = q.b0 + q.b1 * 0x100 + q.b2 * 0x10000 + q.b3 * 0x1000000

pub record State : Type 0 where
  pub esc_mode : Bool
  pub mask_mst : ℕ
  pub mask_lsr : ℕ
  pub state : ℕ
  pub code : ℕ
  pub sub_state : ℕ
  pub data_bytes : Quad
  pub line_data : List ℕ
  pub options : ℕ

-- The constructor. `code` and `data` are not set there; every read of them follows a write.
abbrev pub new_state : State
new_state = record {
  esc_mode = false;
  mask_mst = 0;
  mask_lsr = 0;
  state = 0;
  code = 0;
  sub_state = 0;
  data_bytes = record { b0 = 0; b1 = 0; b2 = 0; b3 = 0 };
  line_data = [];
  options = 0;
}

abbrev pub set_masks : State → State
set_masks s = record s {
  mask_mst = go1_o2v_modem_status s.options;
  mask_lsr = go1_o2v_line_status s.options;
}

unfoldable pub options_del : ℕ → State → State
options_del opts s = set_masks (record s { options = clear_bits s.options opts })

unfoldable pub options_add : ℕ → State → State
options_add opts s = set_masks (record s { options = bit_or s.options opts })

-- The object and the message stream while `Convert` runs.
pub record Run : Type 0 where
  pub st : State
  pub chain : Chain

abbrev pub reset : Run → Run
reset r = record r { st = record (r.st) { state = 0; sub_state = 0 } }

unfoldable pub flush : Run → Run
flush r = elim r.st.line_data [
  | [] ↦ r
  | b ∷ bs ↦ record {
    st = record (r.st) { line_data = [] };
    chain = insert_buf Msg.line_data (b ∷ bs) r.chain;
  }
]

unfoldable pub append : ℕ → Run → Run
append ch r = record r { st = record (r.st) { line_data = r.st.line_data ++ ch ∷ [] } }

-- `Flush` and then `pMsgInsertVal`.
unfoldable pub put_val : ℕ → ℕ → Run → Run
put_val t v r = let f = flush r in record f { chain = insert_val t v f.chain }

unfoldable pub put_val_if : Bool → ℕ → ℕ → Run → Run
put_val_if b t v r = if b then put_val t v r else r

unfoldable pub append_if : Bool → ℕ → Run → Run
append_if b ch r = if b then append ch r else r

abbrev pub set_sub_state : ℕ → Run → Run
set_sub_state n r = record r { st = record (r.st) { sub_state = n } }

abbrev pub store_at : ℕ → ℕ → Run → Run
store_at i ch r = record r { st = record (r.st) { data_bytes = store i ch r.st.data_bytes } }

abbrev pub flag : Bool → ℕ
flag b = if b then 1 else 0

-- The `case 2` of SERIAL_LSRMST_LSR_*DATA; `code` LSR_NODATA falls into it from `case 1`.
unfoldable pub lsr_report : ℕ → Run → Run
lsr_report ch r =
    let lsr = r.st.data_bytes.b0 in
    let brk = nonzero (bit_and lsr line_status_bi) in
    let wants_brk = nonzero (bit_and r.st.options go1_break_status) in
    let a = put_val_if wants_brk Msg.break_status (flag brk) r in
    let wants_lsr = nonzero (bit_and lsr r.st.mask_lsr) in
    let b = put_val_if wants_lsr Msg.line_status (bit_or lsr (val2mask r.st.mask_lsr)) a in
    reset (append_if (r.st.sub_state == 2 && (not brk || nonzero ch)) ch b)

unfoldable pub in_lsr : Lsrmst → ℕ → Run → Run
unfolding store
in_lsr sc ch r =
    let sub = r.st.sub_state in
    if sub == 0
    then set_sub_state 1 r
    else if sub == 1
    then if r.st.code == sc.lsr_data
      then set_sub_state 2 (store_at 0 ch r)
      else lsr_report ch (store_at 0 ch r)
    else if sub == 2
    then lsr_report ch r
    else reset r

unfoldable pub in_mst : ℕ → Run → Run
in_mst ch r =
    let sub = r.st.sub_state in
    let mask = r.st.mask_mst in
    if sub == 0
    then set_sub_state 1 r
    else if sub == 1
    then reset (put_val_if (nonzero mask) Msg.modem_status (bit_or ch (val2mask mask)) r)
    else reset r

unfoldable pub in_rbr : ℕ → Run → Run
unfolding store
in_rbr ch r =
    let sub = r.st.sub_state in
    let r' = store_at (sub - 1) ch r in
    let wanted = nonzero (bit_and r.st.options go1_rbr_status) in
    if sub == 0
    then set_sub_state 1 r
    else if leb 1 sub && ltb sub 5
    then if ltb sub 4
      then set_sub_state (sub + 1) r'
      else reset (put_val_if wanted Msg.rbr_status (to_ulong r'.st.data_bytes) r')
    else reset r

-- The value of RLC_STATUS.
unfoldable pub rlc_val : Quad → ℕ
rlc_val q =
    bit_or
      (bit_or (bit_or (val2lc_bytesize q.b0) lc_mask_bytesize)
        (bit_or (val2lc_parity q.b1) lc_mask_parity))
      (bit_or (val2lc_stopbits q.b2) lc_mask_stopbits)

unfoldable pub in_rlc : ℕ → Run → Run
unfolding store
in_rlc ch r =
    let sub = r.st.sub_state in
    let r' = store_at (sub - 1) ch r in
    let wanted = nonzero (bit_and r.st.options go1_rlc_status) in
    if sub == 0
    then set_sub_state 1 r
    else if leb 1 sub && leb sub 3
    then if ltb sub 3
      then set_sub_state (sub + 1) r'
      else reset (put_val_if wanted Msg.rlc_status (rlc_val r'.st.data_bytes) r')
    else reset r

-- `switch (code)`.
unfoldable pub in_code : Lsrmst → ℕ → ℕ → Run → Run
in_code sc escape_char ch r =
    let code = r.st.code in
    if code == sc.escape
    then reset (append escape_char r)
    else if code == sc.lsr_data || code == sc.lsr_nodata
    then in_lsr sc ch r
    else if code == sc.mst
    then in_mst ch r
    else if code == insert_rbr
    then in_rbr ch r
    else if code == insert_rlc
    then in_rlc ch r
    else reset r

-- What follows the `switch`.
unfoldable pub in_text : ℕ → ℕ → Run → Run
in_text escape_char ch r =
    if ch == escape_char then record r { st = record (r.st) { state = 1 } } else append ch r

-- One round of the loop: `switch (state)`.
unfoldable pub step : Lsrmst → ℕ → Run → ℕ → Run
unfolding in_code in_text
step sc escape_char r ch =
    let state = r.st.state in
    if state == 0
    then in_text escape_char ch r
    else if state == 1
    then in_code sc escape_char ch (record r { st = record (r.st) { code = ch; state = 2 } })
    else if state == 2
    then in_code sc escape_char ch r
    else in_text escape_char ch (reset r)

unfoldable pub steps : Lsrmst → ℕ → Run → List ℕ → Run
steps sc escape_char r [] = r
steps sc escape_char r (ch ∷ bs) = steps sc escape_char (step sc escape_char r ch) bs

-- The original data leave the message, and its bytes are taken apart.
unfoldable pub convert_bytes : Lsrmst → ℕ → State → Msg → Run
unfolding steps replace_buf
convert_bytes sc escape_char s m =
    let c = replace_buf Msg.line_data [] (start m) in
    flush (steps sc escape_char (record { st = s; chain = c }) m.buf)

unfoldable pub convert : Lsrmst → ℕ → State → Msg → Run
unfolding convert_bytes
convert sc escape_char s m =
    let r = convert_bytes sc escape_char s m in
    if s.esc_mode then r else record { st = s; chain = start m }
