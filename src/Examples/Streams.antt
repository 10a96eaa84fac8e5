-- ===== src/Examples/Streams.antt =====
-- The streams of com2tcp/utils.cxx and the echo filter of hub4com.
use com0com.Base.{ℕ, List, [], ◌∷◌, refl, arith}
use com0com.Hub.Msg
use com0com.Hub.Msg.{Msg, new}
use com0com.Com2tcp.Stream.{DataStream, put_data, new_stream}
use com0com.Com2tcp.Stream.Gets.{PutThenGot, put_data-get_data}

-- A stream with two bytes, one of which was read.
abbrev started : DataStream
started = record (new_stream 10) {
  buf_q = record { stored = 65 ∷ 66 ∷ []; first = 1 } ∷ [];
  busy = 1;
}

abbrev chain : List Msg
chain =
    record new { type = Msg.line_data; buf = 65 ∷ 66 ∷ [] }
    ∷ record new { type = Msg.connect; val = 1 }
    ∷ []

-- The state of the other filters.
abbrev kept : ℕ
kept = 7

put_data-get_data_example : PutThenGot (67 ∷ 68 ∷ []) started (put_data (67 ∷ 68 ∷ []) started)
put_data-get_data_example =
    put_data-get_data (67 ∷ 68 ∷ []) started refl ((omega arith, omega arith), refl)
