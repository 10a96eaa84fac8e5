-- ===== src/Plugins/AwakSeq.antt =====
-- hub4com/plugins/awakseq/filter.cpp: the filter that holds data back until the awakening sequence
-- has come. The sequence is a C string, so the pointer `pAwakSeqNext` is the list of what is left of
-- it. `connectionCounter` is an integer that does not overflow.
pub mod Scan
pub mod Filtering
use com0com.Base.{
  ℕ, zero, suc, ◌+◌, Bool, true, false, not, ◌&&◌, List, [], ◌∷◌, ◌==◌, nonzero, if◌then◌else◌,
}
use com0com.Hub.Word.{t2n}
use com0com.Hub.Msg
use com0com.Hub.Msg.{Msg}
use com0com.Hub.Chain.{Chain, start, messages, replace_val, replace_none, insert_none}

pub data ℤ : Type 0 where
  pos : ℕ → ℤ
  negsuc : ℕ → ℤ

abbrev inc : ℤ → ℤ
inc (pos n) = pos (suc n)
inc (negsuc zero) = pos 0
inc (negsuc (suc n)) = negsuc n

abbrev dec : ℤ → ℤ
dec (pos zero) = negsuc 0
dec (pos (suc n)) = pos n
dec (negsuc n) = negsuc (suc n)

abbrev positive : ℤ → Bool
positive (pos n) = nonzero n
positive (negsuc n) = false

pub record State : Type 0 where
  pub wait_awak_seq : Bool
  pub awak_seq_next : List ℕ
  pub connect_sent : Bool
  pub connection_counter : ℤ

abbrev pub start_awak_seq : List ℕ → State → State
start_awak_seq seq s = record s { wait_awak_seq = true; awak_seq_next = seq }

-- The constructor.
abbrev pub new_state : List ℕ → State
new_state seq = record {
  wait_awak_seq = true;
  awak_seq_next = seq;
  connect_sent = false;
  connection_counter = pos 0;
}

-- The loop over a message's bytes: what is left of the sequence, and of the bytes.
unfoldable pub scan : List ℕ → List ℕ → List ℕ → List ℕ × List ℕ
scan seq [] bs = ([], bs)
scan seq (x ∷ xs) [] = (x ∷ xs, [])
scan seq (x ∷ xs) (b ∷ bs) =
    let hit = scan seq xs bs in let miss = scan seq seq bs in if x == b then hit else miss

-- The sequence is complete: CONNECT(TRUE) before the rest of the data, or in its place.
abbrev connected : List ℕ → Msg → Chain
connected [] m = replace_val Msg.connect 1 (start m)
connected (b ∷ bs) m =
    let c = insert_none Msg.empty (start (record m { type = Msg.connect; val = 1; buf = [] })) in
    record c { here = record (c.here) { type = Msg.line_data; buf = b ∷ bs } }

abbrev pub after_scan : List ℕ × List ℕ → Msg → State → State × List Msg
after_scan ([], rest) m s =
    (record s { wait_awak_seq = false; connect_sent = true }, messages (connected rest m))
after_scan (x ∷ xs, rest) m s = (record s { awak_seq_next = x ∷ xs }, record m { buf = [] } ∷ [])

-- `case HUB_MSG_TYPE_LINE_DATA`.
unfoldable pub in_line_data : List ℕ → Msg → State → State × List Msg
unfolding scan replace_val insert_none
in_line_data seq m s = elim m.buf [
  | [] ↦ (s, m ∷ [])
  | b ∷ bs ↦
      if s.wait_awak_seq then after_scan (scan seq s.awak_seq_next (b ∷ bs)) m s else (s, m ∷ [])
]

-- `case HUB_MSG_TYPE_CONNECT`.
unfoldable pub in_connect : List ℕ → Msg → State → State × List Msg
unfolding replace_none
in_connect seq m s =
    let none = messages (replace_none Msg.empty (start m)) in
    if nonzero m.val
    then (s, none)
    else if s.connect_sent
    then (start_awak_seq seq (record s { connect_sent = false }), m ∷ [])
    else (start_awak_seq seq s, none)

unfoldable pub in_method : List ℕ → Msg → State → State × List Msg
unfolding in_line_data in_connect
in_method seq m s =
    if t2n m.type == 1
    then in_line_data seq m s
    else if t2n m.type == 2
    then in_connect seq m s
    else (s, m ∷ [])

-- `OutMethod`, which leaves the message as it is.
unfoldable pub out_method : List ℕ → Msg → State → State
out_method seq m s =
    let up = record s { connection_counter = inc s.connection_counter } in
    let down = record s { connection_counter = dec s.connection_counter } in
    if t2n m.type == 2
    then if nonzero m.val
      then up
      else if positive down.connection_counter
      then down
      else start_awak_seq seq down
    else s
