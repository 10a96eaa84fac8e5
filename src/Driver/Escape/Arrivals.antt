-- ===== src/Driver/Escape/Arrivals.antt =====
-- What `CopyCharsWithEscape` of com0com/sys/bufutils.c delivers, without regard to the room: the
-- bytes that each turn of the loop adds to the stream.
use com0com.Base.{
  ℕ, zero, suc, ◌+◌, ◌≤◌, ◌<◌, Bool, true, false, ◌&&◌, ◌||◌, List, [], ◌∷◌, ◌++◌, ◌==◌, nonzero,
  if◌then◌else◌, bit_and, ◌≡◌, ◌⊎◌, inl, inr, refl, sym, ap, subst, arith, lt_or_ge,
}
use com0com.Plugins.Lsrmst.{Lsrmst}
use com0com.Driver.RawData.{IsRaw}
use com0com.Driver.Port.{Serial, IoPort}
use com0com.Driver.Output.{Out, put, put_char, flush_insert}
use com0com.Driver.Output.Room.{Fits, Puts, Puts-nil, Puts-append, put-Puts, put_char-Puts}
use com0com.Driver.Output.Flush.{flush_insert-Puts}
use com0com.Driver.Line.{FlowFilter, Sender, Heard, silence, char_, heard}
use com0com.Driver.Escape.{
  inserts_lsr, is_break, reported_lsr, report_error, Fate, ignored, stripped, xoff, xon, received,
  fate, is_escape, deliver, turn_out, masked, after, output, copy_loop, copy_chars_with_escape,
}

abbrev pub bytes_if : Bool → List ℕ → List ℕ
bytes_if b bs = if b then bs else []

-- The line status behind an escape character, and the character that replaces a wrong one.
abbrev pub error_bytes : Serial → Lsrmst → IoPort → ℕ → ℕ → List ℕ
error_bytes se sc p cur lsr =
    bytes_if (inserts_lsr p lsr) (p.escape_char ∷ sc.lsr_data ∷ reported_lsr p lsr ∷ cur ∷ [])
    ++ (if is_break lsr
        then bytes_if (nonzero (bit_and p.hand_flow.flow_replace se.break_char))
            (p.special_chars.break_char ∷ [])
        else bytes_if (nonzero (bit_and p.hand_flow.flow_replace se.error_char))
            (p.special_chars.error_char ∷ []))

-- A character that is received, with a code behind it where it is the escape character.
abbrev pub char_bytes : Lsrmst → IoPort → Fate → ℕ → List ℕ
char_bytes sc p received cur = (cur ∷ []) ++ bytes_if (is_escape p cur) (sc.escape ∷ [])
char_bytes sc p _ cur = []

unfoldable pub turn_bytes : Serial → Lsrmst → IoPort → FlowFilter → ℕ → ℕ → List ℕ
turn_bytes se sc p f cur lsr =
    bytes_if (nonzero lsr) (error_bytes se sc p cur lsr)
    ++ (if nonzero lsr && inserts_lsr p lsr then [] else char_bytes sc p (fate p f.flags cur) cur)

abbrev pub arrived : Serial → Lsrmst → Sender × Heard → List ℕ
arrived se sc t =
    let (s, h) = t in
    elim h [
      | silence ↦ []
      | char_ ch lsr ↦ turn_bytes se sc s.wire.reader s.filter (masked s ch) lsr
    ]

-- The sender, and the stream, after so many turns.
unfoldable pub turns : Serial → ℕ → Sender → Sender
turns se zero s = s
turns se (suc n) s = turns se n (after se (heard se s))

unfoldable pub arrivals : Serial → Lsrmst → ℕ → Sender → List ℕ
arrivals se sc zero s = []
arrivals se sc (suc n) s = let t = heard se s in arrived se sc t ++ arrivals se sc n (after se t)

Puts-if :
    (b : Bool) {o o1 o2 : Out} {bs cs : List ℕ} {k : ℕ}
    → Puts o bs k o1
    → Puts o cs k o2
    → Puts o (if b then bs else cs) k (if b then o1 else o2)
Puts-if true p q = p
Puts-if false p q = q

Fits-less : {o : Out} {j k : ℕ} → k ≤ j → Fits o j → Fits o k
Fits-less h f = record {
  real = f.real;
  raw = f.raw;
  place = f.place;
  space = omega (arith, h, f.space);
}

module _ (se : Serial) (sc : Lsrmst) (p : IoPort) where
  report_error-Puts :
      (cur lsr k : ℕ) (o : Out)
      → Fits o (5 + k)
      → Puts o (error_bytes se sc p cur lsr) k (report_error se sc p cur lsr o)
  report_error-Puts cur lsr k o f =
      let bs = p.escape_char ∷ sc.lsr_data ∷ reported_lsr p lsr ∷ cur ∷ [] in
      let first =
        Puts-if (inserts_lsr p lsr) (put-Puts o bs (1 + k) (Fits-less (omega arith) f))
          (Puts-nil o (1 + k) (Fits-less (omega arith) f)) in
      let o' = if inserts_lsr p lsr then put o bs else o in
      let fit = first.fits in
      let idle = Puts-nil o' k (Fits-less (omega arith) fit) in
      Puts-append (bytes_if (inserts_lsr p lsr) bs) _ (1 + k) k first (
        Puts-if (is_break lsr)
          (Puts-if (nonzero (bit_and p.hand_flow.flow_replace se.break_char))
            (put_char-Puts o' p.special_chars.break_char k fit) idle)
          (Puts-if (nonzero (bit_and p.hand_flow.flow_replace se.error_char))
            (put_char-Puts o' p.special_chars.error_char k fit) idle))

  deliver-Puts :
      (a : Fate) (cur k : ℕ) (o : Out)
      → Fits o (2 + k)
      → Puts o (char_bytes sc p a cur) k (deliver sc p a cur o)
  deliver-Puts received cur k o f =
      let first = put_char-Puts o cur (1 + k) (Fits-less (omega arith) f) in
      Puts-append (cur ∷ []) _ (1 + k) k first (
        Puts-if (is_escape p cur) (put_char-Puts (put_char o cur) sc.escape k first.fits)
          (Puts-nil (put_char o cur) k (Fits-less (omega arith) first.fits)))
  deliver-Puts ignored cur k o f = Puts-nil o k (Fits-less (omega arith) f)
  deliver-Puts stripped cur k o f = Puts-nil o k (Fits-less (omega arith) f)
  deliver-Puts xoff cur k o f = Puts-nil o k (Fits-less (omega arith) f)
  deliver-Puts xon cur k o f = Puts-nil o k (Fits-less (omega arith) f)

  turn_out-Puts :
      (f : FlowFilter) (cur lsr : ℕ) (o : Out)
      → Fits o 7
      → Puts o (turn_bytes se sc p f cur lsr) 0 (turn_out se sc p f cur lsr o)
  unfolding turn_out turn_bytes
  turn_out-Puts f cur lsr o h =
      let first =
        Puts-if (nonzero lsr) (report_error-Puts cur lsr 2 o h)
          (Puts-nil o 2 (Fits-less (omega arith) h)) in
      let o' = if nonzero lsr then report_error se sc p cur lsr o else o in
      Puts-append (bytes_if (nonzero lsr) (error_bytes se sc p cur lsr)) _ 2 0 first (
        Puts-if (nonzero lsr && inserts_lsr p lsr)
          (Puts-nil o' 0 (Fits-less (omega arith) first.fits))
          (deliver-Puts (fate p f.flags cur) cur 0 o' first.fits))

-- In a turn there is room for a byte, so all that the turn adds finds a place.
room_of_turn : {o : Out} → Fits o 0 → 0 < o.room → Fits o 7
room_of_turn f h = record {
  real = f.real;
  raw = f.raw;
  place = f.place;
  space = elim f.place [ inl e ↦ omega arith | inr e ↦ absurd (omega arith) ];
}

-- How a loop of at most `n` turns from `s` and `o` ends.
pub record Copies (se : Serial) (sc : Lsrmst) (n : ℕ) (s : Sender) (o : Out)
    (res : Sender × Out × ℕ) : Type 0 where
  pub sender : res.0 ≡ turns se res.2 s
  pub puts : Puts o (arrivals se sc res.2 s) 0 res.1
  pub stops : (res.2 ≡ n) ⊎ (res.1.room ≡ 0)
  pub at_most : res.2 ≤ n

module _ (se : Serial) (sc : Lsrmst) where
  output-Puts :
      (t : Sender × Heard) (o : Out) → Fits o 7 → Puts o (arrived se sc t) 0 (output se sc t o)
  output-Puts (s, silence) o f = Puts-nil o 0 (Fits-less (omega arith) f)
  output-Puts (s, char_ ch lsr) o f =
      turn_out-Puts se sc s.wire.reader s.filter (masked s ch) lsr o f

  Copies-suc :
      (n : ℕ) (s : Sender) (o : Out) (res : Sender × Out × ℕ)
      → Fits o 0
      → 0 < o.room
      → Copies se sc n (after se (heard se s)) (output se sc (heard se s) o) res
      → Copies se sc (suc n) s o (res.0, res.1, suc res.2)
  unfolding turns arrivals
  Copies-suc n s o (s', o', k) f h c =
      let t = heard se s in
      record {
        sender = c.sender;
        puts =
            Puts-append (arrived se sc t) (arrivals se sc k (after se t)) 0 0
              (output-Puts t o (room_of_turn f h)) c.puts;
        stops = elim c.stops [ inl e ↦ inl (ap suc e) | inr e ↦ inr e ];
        at_most = omega (arith, c.at_most);
      }

  copy_loop-more :
      (n : ℕ) (s : Sender) (o : Out)
      → 0 < o.room
      → copy_loop se sc (suc n) s o ≡ (
          let t = heard se s in
          let (s', o', k) = copy_loop se sc n (after se t) (output se sc t o) in (s', o', suc k))
  unfolding copy_loop
  copy_loop-more n s o h = let e : (o.room == 0) ≡ false = ground arith in rw (e, copy_loop) refl

  copy_loop-full :
      (n : ℕ) (s : Sender) (o : Out)
      → o.null ≡ false
      → o.room ≡ 0
      → copy_loop se sc (suc n) s o ≡ (s, o, 0)
  unfolding copy_loop
  copy_loop-full n s o z h =
      let e : (nonzero o.room || o.null) ≡ false = ground arith in
      ap
        (λ (c : Bool). elim c as (λ x. Sender × Out × ℕ) [
          | true ↦
              let t = heard se s in
              let (s', o', k) = copy_loop se sc n (after se t) (output se sc t o) in (s', o', suc k)
          | false ↦ (s, o, 0)
        ])
        e

  -- The loop ends with every turn's bytes delivered or kept, in order.
  pub copy_loop-Copies :
      (n : ℕ) (s : Sender) (o : Out) → Fits o 0 → Copies se sc n s o (copy_loop se sc n s o)
  unfolding copy_loop turns arrivals
  copy_loop-Copies zero s o f = record {
    sender = refl;
    puts = Puts-nil o 0 f;
    stops = inl refl;
    at_most = omega arith;
  }
  copy_loop-Copies (suc n) s o f = elim (lt_or_ge 0 o.room) [
    | inl h ↦
        let t = heard se s in
        subst (Copies se sc (suc n) s o) (sym (copy_loop-more n s o h)) (
          Copies-suc n s o (copy_loop se sc n (after se t) (output se sc t o)) f h (
            copy_loop-Copies n (after se t) (output se sc t o)
              (output-Puts t o (room_of_turn f h)).fits))
    | inr h ↦
        let z : o.room ≡ 0 = omega arith in
        subst (Copies se sc (suc n) s o) (sym (copy_loop-full n s o f.real z))
          (record { sender = refl; puts = Puts-nil o 0 f; stops = inr z; at_most = omega arith })
  ]

  -- `CopyCharsWithEscape` into a buffer: what was delivered, and then what waits in insertData, is
  -- what waited before and the bytes that the turns made; the turns end when all characters are
  -- used or the buffer is full, and insertData never overflows.
  pub copy_chars_with_escape-Copies :
      (n : ℕ) (s : Sender) (o : Out)
      → o.null ≡ false
      → IsRaw o.insert
      → o.out ≡ []
      → Copies se sc n s o (copy_chars_with_escape se sc n s o)
  unfolding copy_chars_with_escape
  copy_chars_with_escape-Copies n s o z w e =
      let p = flush_insert-Puts o 0 z w e (omega (arith, w.fits)) in
      let c = copy_loop-Copies n s (flush_insert o) p.fits in
      let res = copy_loop se sc n s (flush_insert o) in
      record {
        sender = c.sender;
        puts = Puts-append [] (arrivals se sc res.2 s) 0 0 p c.puts;
        stops = c.stops;
        at_most = c.at_most;
      }
