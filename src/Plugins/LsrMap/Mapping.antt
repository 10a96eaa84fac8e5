-- ===== src/Plugins/LsrMap/Mapping.antt =====
-- What the LSR mapping filter (hub4com/plugins/lsrmap/filter.cpp) does to a line status.
use com0com.Base.{ℕ, [], ◌∷◌, ◌≡◌, arith, if◌then◌else◌, bit_or, nonzero}
use com0com.Hub.Word.{val2mask}
use com0com.Hub.Memory.{Memory}
use com0com.Hub.Msg
use com0com.Hub.Msg.{Msg}
use com0com.Hub.Chain.{insert_val}
use com0com.Hub.Chain.Content.{content, value, says}
use com0com.Plugins.LsrMap.{mapped, out_method}

-- A LINE_STATUS message passes, and the bits that are set, named in its mask and in the filter's
-- follow it as a SET_LSR with those bits both as mask and as value, unless there is none.
pub content-out_method :
    (mask : ℕ) (m : Msg) (mem : Memory)
    → m.type ≡ Msg.line_status
    → content (out_method mask m mem).0
      ≡ value Msg.line_status m.val
        ∷ (if nonzero (mapped mask m.val)
            then value Msg.set_lsr (bit_or (val2mask (mapped mask m.val)) (mapped mask m.val)) ∷ []
            else [])
unfolding out_method insert_val says
content-out_method mask m mem h = ground arith
