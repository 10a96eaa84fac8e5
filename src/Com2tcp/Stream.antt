-- ===== src/Com2tcp/Stream.antt =====
-- com2tcp/utils.cxx and utils.h: ChunkStream, ChunkStreamQ and DataStream. `stored` holds the bytes of
-- `data` up to `last`. The queue is the list of its chunks, from `pFirst` to `pLast`.
pub mod Puts
pub mod Gets
use com0com.Base.{
  ℕ, zero, suc, ◌+◌, ◌-◌, ◌*◌, Bool, true, false, not, ◌&&◌, List, [], ◌∷◌, ◌++◌, ◌==◌, ltb,
  nonzero, if◌then◌else◌, Option, none, some, length, take, drop,
}

-- sizeof(data).
abbrev pub chunk_size : ℕ
chunk_size = 256

pub record ChunkStream : Type 0 where
  pub stored : List ℕ
  pub first : ℕ

abbrev pub new_chunk : ChunkStream
new_chunk = record { stored = []; first = 0 }

abbrev pub min : ℕ → ℕ → ℕ
min a b = if ltb b a then b else a

-- `ChunkStream::write`: how many bytes went in; `none` stands for -1.
unfoldable pub chunk_write : List ℕ → ChunkStream → Option (ℕ × ChunkStream)
chunk_write bs c =
    let room = chunk_size - length c.stored in
    let len = min room (length bs) in
    if room == 0 then none else some (len, record c { stored = c.stored ++ take len bs })

-- `bufQ.last()->write`.
unfoldable pub write_last : List ℕ → List ChunkStream → Option (ℕ × List ChunkStream)
unfolding chunk_write
write_last bs [] = none
write_last bs (c ∷ []) = elim (chunk_write bs c) [ none ↦ none | some (n, d) ↦ some (n, d ∷ []) ]
write_last bs (c ∷ d ∷ cs) = elim (write_last bs (d ∷ cs)) [
  | none ↦ none
  | some (n, q) ↦ some (n, c ∷ q)
]

abbrev pub with_chunk : List ChunkStream → List ChunkStream
with_chunk [] = new_chunk ∷ []
with_chunk (c ∷ cs) = c ∷ cs

-- The loop of `PutData`; `none` when the fuel is out.
unfoldable pub put_loop : ℕ → List ℕ → List ChunkStream → Option (List ChunkStream)
unfolding write_last
put_loop zero bs q = none
put_loop (suc k) [] q = some q
put_loop (suc k) (b ∷ bs) q = elim (write_last (b ∷ bs) (with_chunk q)) [
  | none ↦ put_loop k (b ∷ bs) (with_chunk q ++ new_chunk ∷ [])
  | some (n, r) ↦ put_loop k (drop n (b ∷ bs)) r
]

pub record DataStream : Type 0 where
  pub buf_q : List ChunkStream
  pub busy : ℕ
  pub threshold : ℕ
  pub eof : Bool

-- The constructor.
abbrev pub new_stream : ℕ → DataStream
new_stream threshold = record { buf_q = []; busy = 0; threshold = threshold; eof = false }

-- `PutData`: `some` of the number of bytes, or `none` for -1. Two rounds a byte and two more are
-- enough for the loop.
unfoldable pub put_data : List ℕ → DataStream → Option (Option ℕ × DataStream)
unfolding put_loop
put_data bs s = if s.eof then some (none, s) else elim (put_loop (2 + 2 * length bs) bs s.buf_q) [
  | none ↦ none
  | some q ↦ some (some (length bs), record s { buf_q = q; busy = s.busy + length bs })
]

-- `PutEof`, `isFull` and `Clean`.
unfoldable pub put_eof : DataStream → DataStream
put_eof s = record s { eof = true }

unfoldable pub is_full : DataStream → Bool
is_full s = nonzero s.threshold && ltb s.threshold s.busy

unfoldable pub clean : DataStream → DataStream
clean s = record s { buf_q = []; busy = 0; eof = false }

-- `ChunkStream::read`; `none` stands for -1.
unfoldable pub chunk_read : ℕ → ChunkStream → Option (List ℕ × ChunkStream)
chunk_read count c =
    let len = min (length c.stored - c.first) count in
    if c.first == chunk_size
    then none
    else some (take len (drop c.first c.stored), record c { first = c.first + len })

abbrev pub bytes_then :
    List ℕ → Option (List ℕ × List ChunkStream) → Option (List ℕ × List ChunkStream)
bytes_then xs none = none
bytes_then xs (some r) = some (xs ++ r.0, r.1)

-- The loop of `GetData`; `none` when the fuel is out.
unfoldable pub get_loop : ℕ → ℕ → List ChunkStream → Option (List ℕ × List ChunkStream)
unfolding chunk_read
get_loop zero count q = none
get_loop (suc k) zero q = some ([], q)
get_loop (suc k) (suc n) [] = some ([], [])
get_loop (suc k) (suc n) (c ∷ cs) = elim (chunk_read (suc n) c) [
  | none ↦ get_loop k (suc n) cs
  | some (xs, d) ↦
      let rest = get_loop k (suc n - length xs) (d ∷ cs) in
      if length xs == 0 then some ([], d ∷ cs) else bytes_then xs rest
]

-- `GetData`: `some` of the bytes, or `none` for -1. A round a byte, a round a chunk and one more are
-- enough for the loop.
unfoldable pub get_data : ℕ → DataStream → Option (Option (List ℕ) × DataStream)
unfolding get_loop
get_data count s =
    if s.busy == 0
    then some (if s.eof then none else some [], s)
    else elim (get_loop (1 + (count + length s.buf_q)) count s.buf_q) [
      | none ↦ none
      | some (xs, q) ↦ some (some xs, record s { buf_q = q; busy = s.busy - length xs })
    ]
