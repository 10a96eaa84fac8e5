-- ===== src/Driver/TxBuffer.antt =====
-- `C0C_TX_BUFFER` of com0com/sys/com0com.h, the transmitter's holding and shift registers, and its
-- functions in bufutils.c. The array leastBuf stands in the record, and a pointer into it is its
-- distance from pBase. A loop runs on fuel and returns `none` without it.
pub mod Fill
pub mod Drain
pub mod Transmit
use com0com.Base.{
  ℕ, zero, suc, ◌+◌, ◌-◌, Bool, true, false, not, ◌&&◌, List, [], ◌∷◌, ◌++◌, length, take, drop,
  blit, replicate, min, ltb, leb, ◌==◌, nonzero, if◌then◌else◌, Option, some, none,
}
use com0com.Plugins.Lsrmst.{Lsrmst}
use com0com.Driver.RawData.{RawData}
use com0com.Driver.Ring.{advance, live_run, free_run}
use com0com.Driver.Port.{Serial}
use com0com.Driver.Line.{Sender}
use com0com.Driver.Output.{Out}
use com0com.Driver.Escape.{copy_chars_with_escape}
use com0com.Driver.Buffer.{Buffer, Written, write_to_buffer}

pub record TxBuffer : Type 0 where
  pub mem : List ℕ
  pub p_busy : ℕ
  pub p_free : ℕ
  pub p_end : ℕ
  pub busy : ℕ

abbrev pub least_size : ℕ
least_size = 15

-- C0C_TX_BUFFER_THR_EMPTY
abbrev pub thr_empty : TxBuffer → Bool
thr_empty t = leb t.busy 1

unfoldable pub set_tx_buffer : TxBuffer → TxBuffer
set_tx_buffer t = record t { p_free = 0; p_busy = 0; p_end = (least_size - 1) + 1; busy = 0 }

unfoldable pub free_tx_buffer : TxBuffer → TxBuffer
free_tx_buffer t = record {
  mem = replicate least_size 0;
  p_busy = 0;
  p_free = 0;
  p_end = 0;
  busy = 0;
}

-- The bytes put at pFree, in one piece.
abbrev pub tx_filled : TxBuffer → List ℕ → TxBuffer
tx_filled t bs = record t {
  mem = blit t.mem t.p_free bs;
  busy = t.busy + length bs;
  p_free = advance t.p_free (length bs) t.p_end;
}

abbrev pub piece : TxBuffer → ℕ → ℕ
piece t write_length = min (free_run t.p_busy t.p_free t.p_end) write_length

abbrev pub count_before : ℕ → Option (TxBuffer × ℕ) → Option (TxBuffer × ℕ)
count_before n none = none
count_before n (some r) = some (r.0, n + r.1)

unfoldable pub tx_write_loop : ℕ → TxBuffer → List ℕ → ℕ → Option (TxBuffer × ℕ)
tx_write_loop zero t write write_length = none
tx_write_loop (suc fuel) t write write_length =
    let l = piece t write_length in
    let rest = tx_write_loop fuel (tx_filled t (take l write)) (drop l write) (write_length - l) in
    if nonzero write_length && ltb t.busy t.p_end then count_before l rest else some (t, 0)

-- The buffer, and how many bytes were taken.
unfoldable pub write_to_tx_buffer : TxBuffer → List ℕ → ℕ → Option (TxBuffer × ℕ)
write_to_tx_buffer t write write_length =
    let n = if ltb (t.p_end - 1) write_length then t.p_end - 1 else write_length in
    if not (thr_empty t) then some (t, 0) else tx_write_loop (suc n) t write n

-- Bytes of the live run sent.
abbrev pub tx_sent : TxBuffer → ℕ → TxBuffer
tx_sent t n = record t { busy = t.busy - n; p_busy = advance t.p_busy n t.p_end }

abbrev pub tx_run : TxBuffer → ℕ → ℕ
tx_run t tx_limit = min (live_run t.p_busy t.p_free t.p_end t.busy) tx_limit

-- The sender reads from pBusy on.
abbrev pub at_run : TxBuffer → Sender → Sender
at_run t s = record s { write_buf = some (drop t.p_busy t.mem) }

-- How a read ends: the bytes for the reader, insertData, the buffer, the sender and `*pWriteDone`.
pub record TxRead : Type 0 where
  pub out : List ℕ
  pub insert : RawData
  pub tx : TxBuffer
  pub sender : Sender
  pub write_done : ℕ

abbrev pub read_before : List ℕ → ℕ → Option TxRead → Option TxRead
read_before bs n none = none
read_before bs n (some r) = some (record r { out = bs ++ r.out; write_done = n + r.write_done })

unfoldable pub tx_read_loop :
    Serial → Lsrmst → ℕ → RawData → TxBuffer → Sender → ℕ → ℕ → Option TxRead
tx_read_loop se sc zero insert t s read_length tx_limit = none
tx_read_loop se sc (suc fuel) insert t s read_length tx_limit =
    let n = if nonzero t.busy then tx_run t tx_limit else 0 in
    let (s', o, done) =
      copy_chars_with_escape se sc n (at_run t s)
        (record { null = false; room = read_length; out = []; done = 0; insert = insert }) in
    let rest =
      tx_read_loop se sc fuel o.insert (tx_sent t done) s' (read_length - o.done)
        (tx_limit - done) in
    if read_length == 0
    then some (record { out = []; insert = insert; tx = t; sender = s; write_done = 0 })
    else if o.done == 0
    then some (record {
      out = o.out;
      insert = o.insert;
      tx = tx_sent t done;
      sender = s';
      write_done = done;
    })
    else read_before o.out done rest

unfoldable pub read_from_tx_buffer :
    Serial → Lsrmst → RawData → TxBuffer → Sender → ℕ → ℕ → Option TxRead
read_from_tx_buffer se sc insert t s read_length tx_limit =
    tx_read_loop se sc (suc read_length) insert t s read_length tx_limit

-- How a move ends: both buffers, the sender, how many bytes were moved, and `*pOverrun`.
pub record Moved : Type 0 where
  pub buf : Buffer
  pub tx : TxBuffer
  pub sender : Sender
  pub done : ℕ
  pub overrun : ℕ

abbrev pub move_before : Written → Option Moved → Option Moved
move_before w none = none
move_before w (some r) = some (record r { done = w.done + r.done; overrun = w.overrun + r.overrun })

unfoldable pub tx_move_loop :
    Serial → Lsrmst → Bool → ℕ → Buffer → TxBuffer → Sender → ℕ → Option Moved
tx_move_loop se sc counts zero b t s tx_limit = none
tx_move_loop se sc counts (suc fuel) b t s tx_limit =
    let stop : Option Moved =
      some (record { buf = b; tx = t; sender = s; done = 0; overrun = 0 }) in
    if t.busy == 0
    then stop
    else if tx_run t tx_limit == 0
    then stop
    else elim (write_to_buffer se sc counts b (at_run t s) (tx_run t tx_limit)) [
      | none ↦ none
      | some w ↦
          let rest =
            tx_move_loop se sc counts fuel w.buf (tx_sent t w.done) w.sender (tx_limit - w.done) in
          if w.done == 0
          then some
              (record { buf = w.buf; tx = t; sender = w.sender; done = 0; overrun = w.overrun })
          else move_before w rest
    ]

unfoldable pub move_from_tx_buffer :
    Serial → Lsrmst → Bool → Buffer → TxBuffer → Sender → ℕ → Option Moved
move_from_tx_buffer se sc counts b t s tx_limit =
    tx_move_loop se sc counts (suc t.busy) b t s tx_limit
