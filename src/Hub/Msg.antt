-- ===== src/Hub/Msg.antt =====
-- HUB_MSG of hub4com/plugins/plugins_api.h and class HubMsg of hub4com/hubmsg.h and hubmsg.cpp.
-- A chain linked by `pNext` is a list. The members of the union are fields of their own: `buf` is
-- the block at `u.buf.pBuf` with its size, `val` is `u.val`, `pv_val` is `u.pv.val` (the field behind
-- the pointer), and `p_val` is the address in `u.pv.pVal`. Allocation does not fail.
use com0com.Base.{ℕ, Bool, List, [], ◌∷◌, ◌==◌, if◌then◌else◌, ◌/◌}
use com0com.Hub.Word.{byte}

pub record Msg : Type 0 where
  pub type : ℕ
  pub buf : List ℕ
  pub val : ℕ
  pub pv_val : ℕ
  pub p_val : ℕ

-- The message types: a number, the union member in the top byte, and the value's kind.
abbrev pub empty : ℕ
empty = 0

abbrev pub line_data : ℕ
line_data = 0x1000001

abbrev pub connect : ℕ
connect = 0x2020002

abbrev pub modem_status : ℕ
modem_status = 0x2010003

abbrev pub line_status : ℕ
line_status = 0x2010004

abbrev pub set_pin_state : ℕ
set_pin_state = 0x2010005

abbrev pub get_in_opts : ℕ
get_in_opts = 0x3000006

abbrev pub fail_in_opts : ℕ
fail_in_opts = 0x2000007

abbrev pub set_out_opts : ℕ
set_out_opts = 0x2000008

abbrev pub rbr_status : ℕ
rbr_status = 0x2040009

abbrev pub rlc_status : ℕ
rlc_status = 0x205000a

abbrev pub count_repeats : ℕ
count_repeats = 0x303000b

abbrev pub get_esc_opts : ℕ
get_esc_opts = 0x300000c

abbrev pub fail_esc_opts : ℕ
fail_esc_opts = 0x300000d

abbrev pub break_status : ℕ
break_status = 0x202000e

abbrev pub set_br : ℕ
set_br = 0x204000f

abbrev pub set_lc : ℕ
set_lc = 0x2050010

abbrev pub set_lsr : ℕ
set_lsr = 0x2010011

abbrev pub loop_test : ℕ
loop_test = 0x4000014

abbrev pub purge_tx_in : ℕ
purge_tx_in = 0x16

abbrev pub purge_tx : ℕ
purge_tx = 0x17

-- HUB_MSG_UNION_TYPES_MASK selects the top byte.
abbrev pub is_buf : Msg → Bool
is_buf m = byte (m.type / 0x1000000) == 1

-- The constructor: all bytes zero.
abbrev pub new : Msg
new = record { type = 0; buf = []; val = 0; pv_val = 0; p_val = 0 }

-- `Clean` frees the block and zeroes the message; the chain behind it stays.
unfoldable pub clean : Msg → Msg
clean m = new

-- `Merge` hangs a chain behind the last message.
unfoldable pub merge : List Msg → List Msg → List Msg
merge [] b = b
merge (m ∷ ms) b = m ∷ merge ms b

-- One message of `Clone`: a block is copied, anything else is copied as it stands.
unfoldable pub clone_one : Msg → Msg
clone_one m = if is_buf m then record new { type = m.type; buf = m.buf } else m

unfoldable pub clone : List Msg → List Msg
unfolding clone_one
clone [] = []
clone (m ∷ ms) = clone_one m ∷ clone ms
