-- ===== src/Examples/Filtering.antt =====
-- The filters awakseq, purge and lsrmap of hub4com/plugins.
use com0com.Base.{ℕ, List, [], ◌∷◌, ◌≡◌, ◌⊎◌, refl}
use com0com.Hub.Msg
use com0com.Hub.Msg.{Msg, new}
use com0com.Hub.Memory.{Memory}
use com0com.Hub.Chain.Content.{content}
use com0com.Plugins.AwakSeq.{new_state, in_method}
use com0com.Plugins.AwakSeq.Filtering.{Woken, in_method-Woken}

-- The sequence "AB" and data with it.
abbrev sequence : List ℕ
sequence = 65 ∷ 66 ∷ []

abbrev wakes : Msg
wakes = record new { type = Msg.line_data; buf = 88 ∷ 65 ∷ 66 ∷ 89 ∷ [] }

in_method-Woken_example :
    (content (in_method sequence wakes (new_state sequence)).1 ≡ [])
    ⊎ Woken sequence wakes.buf (content (in_method sequence wakes (new_state sequence)).1)
in_method-Woken_example = in_method-Woken sequence wakes (new_state sequence) refl refl refl

abbrev leaves : Msg
leaves = record new { type = Msg.connect; val = 0 }

abbrev memory : Memory
memory a = 0

abbrev purges : Msg
purges = record new { type = Msg.purge_tx_in }

-- A break, with the whole mask.
abbrev breaks : Msg
breaks = record new { type = Msg.line_status; val = 0xff0010 }
