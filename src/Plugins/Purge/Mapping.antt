-- ===== src/Plugins/Purge/Mapping.antt =====
-- What the purge filter (hub4com/plugins/purge/filter.cpp) does to a stream of messages.
use com0com.Base.{ℕ, ◌+◌, List, [], ◌∷◌, ◌==◌, ◌≡◌, arith, if◌then◌else◌}
use com0com.Hub.Word.{t2n}
use com0com.Hub.Memory.{Memory}
use com0com.Hub.Msg.{Msg}
use com0com.Hub.Chain.{replace_none, insert_none}
use com0com.Plugins.Purge.{new_filter, out_method}

abbrev pub count_type : ℕ → List Msg → ℕ
count_type n [] = 0
count_type n (m ∷ ms) = (if t2n m.type == n then 1 else 0) + count_type n ms

-- Of every message: no PURGE_TX of the stream passes, each PURGE_TX_IN passes and is followed by the
-- one PURGE_TX that the port gets, and no other message adds one.
pub count_type-out_method :
    (m : Msg) (mem : Memory)
    → (count_type 23 (out_method new_filter m mem).0 ≡ (if t2n m.type == 22 then 1 else 0))
      × (count_type 22 (out_method new_filter m mem).0 ≡ (if t2n m.type == 22 then 1 else 0))
unfolding out_method replace_none insert_none
count_type-out_method m mem = (ground arith, ground arith)
