-- ===== src/Driver/Buffer.antt =====
-- `C0C_BUFFER` of com0com/sys/com0com.h and its functions in bufutils.c. The memory block stands
-- in the record, and a pointer into it is its distance from pBase; `p_end` is also C0C_BUFFER_SIZE.
-- A count (SIZE_T) is a size in memory, so it does not wrap. A loop runs on fuel and returns `none`
-- without it.
pub mod Queue
pub mod Read
pub mod Fill
pub mod Write
pub mod Setup
pub mod Raw
pub mod Transfer
use com0com.Base.{
  ℕ, zero, suc, ◌+◌, ◌-◌, ◌*◌, ◌/◌, Bool, true, false, not, ◌&&◌, List, [], ◌∷◌, ◌++◌, length, take,
  drop, blit, set, min, ltb, leb, ◌==◌, nonzero, if◌then◌else◌, Option, some, none,
}
use com0com.Plugins.Lsrmst.{Lsrmst}
use com0com.Driver.RawData.{RawData, Status, success, pending, kept, compact_raw_data}
use com0com.Driver.Ring.{advance, live_run, free_run}
use com0com.Driver.Port.{Serial}
use com0com.Driver.Line.{Sender}
use com0com.Driver.Output.{Out, copy_plain}
use com0com.Driver.Escape.{copy_chars_with_escape}

-- `has_base` is `pBase != NULL`.
pub record Buffer : Type 0 where
  pub has_base : Bool
  pub mem : List ℕ
  pub p_busy : ℕ
  pub p_free : ℕ
  pub p_end : ℕ
  pub busy : ℕ
  pub limit : ℕ
  pub size80 : ℕ
  pub insert_data : RawData

abbrev no_data : RawData
no_data = record { size = 0; bytes = 0 ∷ 0 ∷ 0 ∷ 0 ∷ 0 ∷ 0 ∷ 0 ∷ [] }

-- A zeroed C0C_BUFFER.
abbrev zeroed : Buffer
zeroed = record {
  has_base = false;
  mem = [];
  p_busy = 0;
  p_free = 0;
  p_end = 0;
  busy = 0;
  limit = 0;
  size80 = 0;
  insert_data = no_data;
}

-- `none` is NULL.
unfoldable pub init_buffer_base : Buffer → Option (List ℕ) → ℕ → Buffer
init_buffer_base b (some block) size = record b {
  has_base = true;
  mem = block;
  p_end = size;
  limit = size;
  size80 = (size * 4 + 4) / 5;
}
init_buffer_base b none size = record b {
  has_base = false;
  mem = [];
  p_end = size;
  limit = size;
  size80 = (size * 4 + 4) / 5;
}

unfoldable pub purge_buffer : Buffer → Buffer
purge_buffer b = record b {
  p_free = 0;
  p_busy = 0;
  busy = 0;
  insert_data = record b.insert_data { size = 0 };
}

unfoldable pub init_buffer : Option (List ℕ) → ℕ → Buffer
init_buffer block size = purge_buffer (init_buffer_base zeroed block size)

unfoldable pub free_buffer : Buffer → Buffer
free_buffer b = zeroed

unfoldable pub set_buffer_limit : Buffer → ℕ → Buffer
set_buffer_limit b limit = record b { limit = if ltb b.p_end limit then b.p_end else limit }

-- The live bytes before `pEnd` taken, so many of them.
abbrev pub taken : Buffer → ℕ → Buffer
taken b length = record b { busy = b.busy - length; p_busy = advance b.p_busy length b.p_end }

abbrev pub run_of : Buffer → ℕ
run_of b = live_run b.p_busy b.p_free b.p_end b.busy

abbrev pub bytes_before : List ℕ → Option (List ℕ × Buffer) → Option (List ℕ × Buffer)
bytes_before bs none = none
bytes_before bs (some (cs, b)) = some (bs ++ cs, b)

-- The bytes that are read, and the buffer.
unfoldable pub read_loop : ℕ → Buffer → ℕ → Option (List ℕ × Buffer)
read_loop zero b read_length = none
read_loop (suc fuel) b read_length =
    let inserted = min b.insert_data.size read_length in
    let length = min (run_of b) read_length in
    let rest = read_loop fuel (taken b length) (read_length - length) in
    if read_length == 0
    then some ([], b)
    else if b.busy == 0
    then if nonzero b.insert_data.size
      then some (
        take inserted b.insert_data.bytes,
        record b { insert_data = compact_raw_data b.insert_data inserted },
      )
      else some ([], b)
    else bytes_before (take length (drop b.p_busy b.mem)) rest

unfoldable pub read_from_buffer : Buffer → ℕ → Option (List ℕ × Buffer)
read_from_buffer b read_length = read_loop (suc read_length) b read_length

-- The room that a copy is given, and the buffer after it.
abbrev pub out_of : Buffer → ℕ → Out
out_of b room = record { null = false; room = room; out = []; done = 0; insert = b.insert_data }

abbrev pub filled : Buffer → Out → Buffer
filled b o = record b {
  mem = blit b.mem b.p_free o.out;
  busy = b.busy + o.done;
  p_free = advance b.p_free o.done b.p_end;
  insert_data = o.insert;
}

abbrev pub room_of : Buffer → ℕ
room_of b = min (free_run b.p_busy b.p_free b.p_end) (b.limit - b.busy)

-- `pWriteBuf += writeDone`, from where this call found it.
abbrev moved_on : Option (List ℕ) → ℕ → Sender → Sender
moved_on none done s = s
moved_on (some write) done s = record s { write_buf = some (drop done write) }

-- How a write ends: the buffer, the sender, how many characters were used, and `*pOverrun`.
pub record Written : Type 0 where
  pub buf : Buffer
  pub sender : Sender
  pub done : ℕ
  pub overrun : ℕ

abbrev pub done_before : ℕ → Option Written → Option Written
done_before n none = none
done_before n (some r) = some (record r { done = n + r.done })

-- A full buffer: with pOverrun the characters that are lost are counted.
abbrev overrun_of : Serial → Lsrmst → Bool → Buffer → Sender → ℕ → Written
overrun_of se sc counts b s write_length =
    let (s', o, done) =
      copy_chars_with_escape se sc write_length s
        (record { null = true; room = 0; out = []; done = 0; insert = b.insert_data }) in
    if counts && leb b.p_end b.busy
    then record {
      buf = record b { insert_data = o.insert };
      sender = s';
      done = done;
      overrun = o.done;
    }
    else record { buf = b; sender = s; done = 0; overrun = 0 }

-- `counts` is `pOverrun != NULL`.
unfoldable pub write_loop : Serial → Lsrmst → Bool → ℕ → Buffer → Sender → ℕ → Option Written
write_loop se sc counts zero b s write_length = none
write_loop se sc counts (suc fuel) b s write_length =
    let (s', o, done) = copy_chars_with_escape se sc write_length s (out_of b (room_of b)) in
    let rest =
      write_loop se sc counts fuel (filled b o) (moved_on s.write_buf done s')
        (write_length - done) in
    if write_length == 0
    then some (record { buf = b; sender = s; done = 0; overrun = 0 })
    else if leb b.limit b.busy
    then some (overrun_of se sc counts b s write_length)
    else done_before done rest

unfoldable pub write_to_buffer : Serial → Lsrmst → Bool → Buffer → Sender → ℕ → Option Written
write_to_buffer se sc counts b s write_length =
    write_loop se sc counts (suc (b.limit - b.busy)) b s write_length

-- A character that must be there: in a full buffer it replaces the last one.
unfoldable pub write_mandatory_to_buffer : Buffer → ℕ → Buffer
write_mandatory_to_buffer b ch =
    if leb b.p_end b.busy
    then if b.has_base
      then if b.p_free == 0
        then record b { mem = set b.mem (b.p_end - 1) ch }
        else record b { mem = set b.mem (b.p_free - 1) ch }
      else b
    else record b {
      busy = b.busy + 1;
      mem = set b.mem b.p_free ch;
      p_free = advance b.p_free 1 b.p_end;
    }

-- The status, the raw data and the buffer.
unfoldable pub write_raw_loop : ℕ → RawData → Buffer → Option (Status × RawData × Buffer)
write_raw_loop zero r b = none
write_raw_loop (suc fuel) r b =
    let (o, done) = copy_plain (out_of b (free_run b.p_busy b.p_free b.p_end)) (kept r) in
    let rest = write_raw_loop fuel (compact_raw_data r done) (filled b o) in
    if r.size == 0
    then some (success, r, b)
    else if leb b.p_end b.busy
    then some (pending, r, b)
    else rest

unfoldable pub write_raw_data_to_buffer : RawData → Buffer → Option (Status × RawData × Buffer)
write_raw_data_to_buffer r b =
    if b.has_base then write_raw_loop (suc b.p_end) r b else some (pending, r, b)

-- The bytes copied, the raw data, and the status if it is set.
unfoldable pub write_raw_data : RawData → ℕ → List ℕ × RawData × Option Status
write_raw_data r read_length =
    let length = if ltb r.size read_length then r.size else read_length in
    let r' = compact_raw_data r length in
    (take length r.bytes, r', if nonzero r'.size then none else some success)

-- The live bytes copied to the new block.
unfoldable pub move_loop : ℕ → Buffer → Buffer → Option Buffer
move_loop zero b new = none
move_loop (suc fuel) b new =
    let length = run_of b in
    let rest = move_loop fuel (taken b length) (record new {
      mem = blit new.mem new.p_free (take length (drop b.p_busy b.mem));
      busy = new.busy + length;
      p_free = new.p_free + length;
    }) in
    if b.busy == 0 then some new else rest

-- FALSE leaves the buffer; TRUE puts the new block in its place.
unfoldable pub set_new_buffer_base : Buffer → List ℕ → ℕ → Option (Bool × Buffer)
set_new_buffer_base b block size =
    let new : Buffer = record (init_buffer_base zeroed (some block) size) {
      p_free = 0;
      p_busy = 0;
      busy = 0;
    } in
    if leb size b.p_end
    then some (false, b)
    else elim (if b.has_base then move_loop (suc b.busy) b new else some new) [
      | none ↦ none
      | some new' ↦ some (true, record new' { insert_data = b.insert_data })
    ]
