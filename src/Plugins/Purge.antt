-- ===== src/Plugins/Purge.antt =====
-- hub4com/plugins/purge/filter.cpp: PURGE_TX_IN of the far side is turned into PURGE_TX. What is
-- printed is left out, and so is the case FAIL_IN_OPTS, which only prints.
pub mod Mapping
use com0com.Base.{
  ℕ, Bool, not, ◌&&◌, ◌||◌, List, [], ◌∷◌, ◌==◌, nonzero, if◌then◌else◌, bit_and, bit_or,
}
use com0com.Hub.Word.{t2n, go_o2i, so_purge_tx, go1_purge_tx_in}
use com0com.Hub.Memory.{Memory, write}
use com0com.Hub.Msg
use com0com.Hub.Msg.{Msg}
use com0com.Hub.Chain.{start, messages, replace_none, insert_none}

pub record Filter : Type 0 where
  pub so_out_mask : ℕ
  pub go_in_mask : ℕ

-- The constructor without options.
abbrev pub new_filter : Filter
new_filter = record { so_out_mask = so_purge_tx; go_in_mask = go1_purge_tx_in }

unfoldable pub out_method : Filter → Msg → Memory → List Msg × Memory
unfolding replace_none insert_none
out_method f m mem =
    let n = t2n m.type in
    if n == 8
    then (record m { val = bit_or m.val f.so_out_mask } ∷ [], mem)
    else if n == 6
    then if go_o2i m.pv_val == 1
      then (m ∷ [], write mem m.p_val (bit_or (mem m.p_val) (bit_and f.go_in_mask m.pv_val)))
      else (m ∷ [], mem)
    else if n == 23
    then if nonzero (bit_and f.so_out_mask so_purge_tx)
      then (messages (replace_none Msg.empty (start m)), mem)
      else (m ∷ [], mem)
    else if n == 22
    then if nonzero (bit_and f.go_in_mask go1_purge_tx_in)
        && nonzero (bit_and f.so_out_mask so_purge_tx)
      then (messages (insert_none Msg.purge_tx (start m)), mem)
      else (m ∷ [], mem)
    else (m ∷ [], mem)
