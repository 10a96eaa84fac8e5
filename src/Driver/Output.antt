-- ===== src/Driver/Output.antt =====
-- Where `CopyCharsWithEscape` of com0com/sys/bufutils.c puts the characters: the read buffer, and
-- insertData for what does not fit. A count (SIZE_T) is a size in memory, so it does not wrap.
pub mod Room
pub mod Flush
use com0com.Base.{
  ℕ, zero, suc, ◌+◌, ◌-◌, ◌≤◌, Bool, true, false, not, ◌&&◌, ◌||◌, List, [], ◌∷◌, ◌++◌, length,
  take, drop, get_or, min, ltb, leb, ◌==◌, nonzero, if◌then◌else◌, Option, none, some, bit_and,
  bit_or,
}
use com0com.Driver.RawData.{RawData, compact_raw_data, add_raw_data}

-- Where the characters go: `room` is readLength, `out` what was copied to pReadBuf, `done` is
-- readDone. With `null`, pReadBuf is NULL and characters are only counted.
pub record Out : Type 0 where
  pub null : Bool
  pub room : ℕ
  pub out : List ℕ
  pub done : ℕ
  pub insert : RawData

-- What does not fit goes to insertData.
abbrev pub put : Out → List ℕ → Out
put o bs =
    let len = min (length bs) o.room in
    let o' : Out = record o {
      room = o.room - len;
      out = o.out ++ take len bs;
      done = o.done + len;
    } in
    if nonzero (length bs - len)
    then if o.null
      then record o' { done = o'.done + (length bs - len) }
      else record o' { insert = (add_raw_data o.insert (drop len bs)).1 }
    else o'

-- One character.
abbrev pub put_char : Out → ℕ → Out
put_char o c =
    if not (nonzero o.room)
    then if o.null
      then record o { done = o.done + 1 }
      else record o { insert = (add_raw_data o.insert (c ∷ [])).1 }
    else record o { room = o.room - 1; out = o.out ++ c ∷ []; done = o.done + 1 }

-- Characters that an earlier call could not deliver come first.
unfoldable pub flush_insert : Out → Out
flush_insert o =
    let length = if o.null then o.insert.size else min o.insert.size o.room in
    if nonzero o.insert.size && (nonzero o.room || o.null)
    then record o {
      room = if o.null then o.room else o.room - length;
      out = if o.null then o.out else o.out ++ take length o.insert.bytes;
      done = o.done + length;
      insert = compact_raw_data o.insert length;
    }
    else o

-- The call without a filter: the output and writeDone.
unfoldable pub copy_plain : Out → List ℕ → Out × ℕ
copy_plain o write =
    let o' = flush_insert o in
    let write_done = if ltb (length write) o'.room then length write else o'.room in
    (
      record o' {
        room = o'.room - write_done;
        out = o'.out ++ take write_done write;
        done = o'.done + write_done;
      },
      write_done,
    )
