-- ===== src/Plugins/Echo.antt =====
-- hub4com/plugins/echo/filter.cpp: the filter that sends data back, as a method for the pipeline of
-- Hub/Filters. It keeps no state of its own, whatever the state `W` of the others is.
pub mod Stream
use com0com.Base.{ℕ, true, List, [], ◌∷◌, ◌==◌, if◌then◌else◌}
use com0com.Hub.Word.{t2n}
use com0com.Hub.Msg
use com0com.Hub.Msg.{Msg}
use com0com.Hub.Chain.{new_buf}
use com0com.Hub.Filters.{Result, InMethod}

-- What is put into `*ppEchoMsg`.
unfoldable pub echo_of : Msg → List Msg
unfolding new_buf
echo_of m = elim m.buf [
  | [] ↦ []
  | b ∷ bs ↦ if t2n m.type == 1 then new_buf Msg.line_data (b ∷ bs) ∷ [] else []
]

module _ {W : Type 0} where
  unfoldable pub in_method : InMethod W
  unfolding echo_of
  in_method m w = record { ok = true; world = w; msgs = m ∷ []; echo = echo_of m }
