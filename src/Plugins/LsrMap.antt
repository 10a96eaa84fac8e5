-- ===== src/Plugins/LsrMap.antt =====
-- hub4com/plugins/lsrmap/filter.cpp: LINE_STATUS of the far side is turned into SET_LSR. What is
-- printed is left out, and so is the case FAIL_IN_OPTS, which only prints.
pub mod Mapping
use com0com.Base.{ℕ, Bool, List, [], ◌∷◌, ◌==◌, ◌+◌, nonzero, if◌then◌else◌, bit_and, bit_or}
use com0com.Hub.Word.{
  byte, t2n, go_o2i, mask2val, val2mask, so_v2o_line_status, go1_v2o_line_status,
}
use com0com.Hub.Memory.{Memory, write}
use com0com.Hub.Msg
use com0com.Hub.Msg.{Msg}
use com0com.Hub.Chain.{start, messages, insert_val}

-- The mask that the constructor sets: OE, PE, FE, BI and FIFOERR.
abbrev pub new_mask : ℕ
new_mask = 0x9e

-- The bits of a LINE_STATUS that are passed on.
abbrev pub mapped : ℕ → ℕ → ℕ
mapped lsr_mask v = bit_and (bit_and (byte v) (byte (mask2val v))) lsr_mask

unfoldable pub out_method : ℕ → Msg → Memory → List Msg × Memory
unfolding insert_val
out_method lsr_mask m mem =
    let n = t2n m.type in
    let lsr = mapped lsr_mask m.val in
    if n == 8
    then (record m { val = bit_or m.val (so_v2o_line_status lsr_mask) } ∷ [], mem)
    else if n == 6
    then if go_o2i m.pv_val == 1
      then (
        m ∷ [],
        write mem m.p_val (bit_or (mem m.p_val) (bit_and (go1_v2o_line_status lsr_mask) m.pv_val)),
      )
      else (m ∷ [], mem)
    else if n == 4
    then if nonzero lsr
      then (messages (insert_val Msg.set_lsr (bit_or (val2mask lsr) lsr) (start m)), mem)
      else (m ∷ [], mem)
    else (m ∷ [], mem)
