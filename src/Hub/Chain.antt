-- ===== src/Hub/Chain.antt =====
-- The message routines of hub4com/export.cpp that filters call. A filter starts at one message and
-- puts new ones behind it; each insertion returns the place where the next one goes. `before` holds
-- what stands before that place, newest first.
pub mod Content
use com0com.Base.{ℕ, List, [], ◌∷◌, ◌++◌, ◌==◌, if◌then◌else◌, reverse}
use com0com.Hub.Msg.{Msg, new, clean, is_buf}

pub record Chain : Type 0 where
  pub before : List Msg
  pub here : Msg

-- The chain from the message that the filter was given.
abbrev pub messages : Chain → List Msg
messages c = reverse c.before ++ c.here ∷ []

abbrev pub start : Msg → Chain
start m = record { before = []; here = m }

-- `HubMsg::Insert` behind the present place.
abbrev pub insert : Msg → Chain → Chain
insert m c = record { before = c.here ∷ c.before; here = m }

unfoldable pub replace_buf : ℕ → List ℕ → Chain → Chain
unfolding clean
replace_buf t src c =
    let m = if is_buf c.here then c.here else clean c.here in
    record c { here = record m { buf = src; type = t } }

-- Bytes go to the end of the present message if that has the same type.
unfoldable pub insert_buf : ℕ → List ℕ → Chain → Chain
insert_buf t src c =
    if c.here.type == t
    then record c { here = record (c.here) { buf = c.here.buf ++ src } }
    else insert (record new { buf = src; type = t }) c

-- `msg_insert_buf(NULL, ...)`.
unfoldable pub new_buf : ℕ → List ℕ → Msg
new_buf t src = record new { buf = src; type = t }

unfoldable pub replace_val : ℕ → ℕ → Chain → Chain
unfolding clean
replace_val t v c = record c { here = record (clean c.here) { val = v; type = t } }

unfoldable pub insert_val : ℕ → ℕ → Chain → Chain
insert_val t v c = insert (record new { val = v; type = t }) c

unfoldable pub replace_none : ℕ → Chain → Chain
unfolding clean
replace_none t c = record c { here = record (clean c.here) { type = t } }

unfoldable pub insert_none : ℕ → Chain → Chain
insert_none t c = insert (record new { type = t }) c
