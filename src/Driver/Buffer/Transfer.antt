-- ===== src/Driver/Buffer/Transfer.antt =====
-- From the sending port to the program that reads: `WriteToBuffer` and then `ReadFromBuffer` of
-- com0com/sys/bufutils.c, and the grammar by which hub4com's escparse filter reads the stream.
use com0com.Base.{
  ℕ, ◌+◌, ◌-◌, ◌≤◌, ◌≢◌, false, List, [], ◌++◌, length, take, map, Option, some, none, ◌≡◌, ap, ◌∙◌,
  take_all, take-add, drop, length-append, arith,
}
use com0com.Hub.Chain.Content.{data_byte}
use com0com.Plugins.Lsrmst.{Lsrmst}
use com0com.Plugins.EscParse.Frames.{Wants, text, decode}
use com0com.Driver.Port.{Serial, Wire}
use com0com.Driver.Line.{FlowFilter, data_mask}
use com0com.Driver.Escape.Quiet.{IsQuiet, encode, received_chars}
use com0com.Driver.Escape.Decode.{decode-encode}
use com0com.Driver.Buffer.{Buffer, Written, write_to_buffer, read_from_buffer}
use com0com.Driver.Buffer.Queue.{Queued}
use com0com.Driver.Buffer.Read.{Reads, read_from_buffer-Reads}
use com0com.Driver.Buffer.Write.{Writes, sender_of, encode-append, write_to_buffer-Writes}

module _ (sc : Lsrmst) (v : Wants) (w : Wire) (flags : ℕ) (cs : List ℕ) where
  -- What is read is the characters received of the first `done` ones.
  abbrev pub Receives : ℕ → Option (List ℕ × Buffer) → Type 0
  Receives done none = ⊥
  Receives done (some r) =
      decode sc w.reader.escape_char v text r.0
      ≡ map data_byte (received_chars w.reader flags (data_mask w) (take done cs))

  -- The write ends, and a read of everything gives what was received.
  abbrev pub Transfers : ℕ → Option Written → Type 0
  Transfers m none = ⊥
  Transfers m (some r) = Receives r.done (read_from_buffer r.buf m)

  Receives-Reads :
      (done m : ℕ) (o : Option (List ℕ × Buffer))
      → w.reader.escape_char ≢ 0
      → length (encode sc w.reader flags (data_mask w) (take done cs)) ≤ m
      → Reads (encode sc w.reader flags (data_mask w) (take done cs)) m o
      → Receives done o
  Receives-Reads done m none z h r = r
  Receives-Reads done m (some r) z h (e, q) =
      ap (decode sc w.reader.escape_char v text)
        (e ∙ take_all m (encode sc w.reader flags (data_mask w) (take done cs)) h)
      ∙ decode-encode sc v w.reader z flags (data_mask w) (take done cs)

  abbrev encoded : ℕ → List ℕ
  encoded k = encode sc w.reader flags (data_mask w) (take k cs)

  encoded-le : (k n : ℕ) → k ≤ n → length (encoded k) ≤ length (encoded n)
  encoded-le k n h =
      let rest = take (n - k) (drop k cs) in
      let e : encoded n ≡ encoded k ++ encode sc w.reader flags (data_mask w) rest =
        ap encoded {x = n} {y = k + (n - k)} (omega arith)
        ∙ ap (encode sc w.reader flags (data_mask w)) (take-add k (n - k) cs)
        ∙ encode-append sc w.reader flags (data_mask w) (take k cs) rest in
      omega (
        arith,
        ap length e,
        length-append (encoded k) (encode sc w.reader flags (data_mask w) rest),
      )

  Transfers-Writes :
      (limit start n m : ℕ) (o : Option Written)
      → length (encoded n) ≤ m
      → w.reader.escape_char ≢ 0
      → Writes sc limit start w flags [] cs n o
      → Transfers m o
  Transfers-Writes limit start n m none l z h = h
  Transfers-Writes limit start n m (some r) l z h =
      let ll : length (encoded r.done) ≤ m = omega (arith, l, encoded-le r.done n h.used) in
      Receives-Reads r.done m (read_from_buffer r.buf m) z ll (
        read_from_buffer-Reads r.buf (encode sc w.reader flags (data_mask w) (take r.done cs)) m
          h.queue)

-- On a line without noise and break, to a port with an escape character whose buffer is empty: the
-- write ends, and a read of at least the escaped length gives a stream that the escparse grammar decodes to
-- just the received ones of the characters used, in order.
pub write-read :
    (se : Serial) (sc : Lsrmst) (v : Wants) (n m : ℕ) (b : Buffer) (w : Wire) (f : FlowFilter)
    (cs : List ℕ)
    → IsQuiet se w
    → n ≤ length cs
    → Queued b []
    → w.reader.escape_char ≢ 0
    → length (encode sc w.reader f.flags (data_mask w) (take n cs)) ≤ m
    → Transfers sc v w f.flags cs m (write_to_buffer se sc false b (sender_of w f cs) n)
write-read se sc v n m b w f cs q h u z l =
    Transfers-Writes sc v w f.flags cs b.limit b.busy n m
      (write_to_buffer se sc false b (sender_of w f cs) n) l z
      (write_to_buffer-Writes se sc n b w f [] cs q h u)
