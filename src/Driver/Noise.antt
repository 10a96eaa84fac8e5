-- ===== src/Driver/Noise.antt =====
-- com0com/sys/noise.c and rand.c: the errors that a noisy line makes.
use com0com.Base.{
  ℕ, zero, suc, ◌+◌, ◌-◌, ◌*◌, ◌/◌, ◌%◌, ◌^◌, Bool, true, not, ◌||◌, ltb, ◌==◌, if◌then◌else◌,
  bit_or, bit_xor,
}
use com0com.Driver.Port.{Serial, IoPort, Rand, Wire}

abbrev ulong : ℕ
ulong = 2 ^ 32

-- A random number and the next state; shifts and products of an ULONG wrap.
unfoldable pub rand : Rand → ℕ × Rand
rand s =
    let t = bit_xor s.x (s.x / 2 ^ 7) in
    let y = s.z in
    let v = bit_xor (bit_xor s.v (s.v * 2 ^ 6 % ulong)) (bit_xor t (t * 2 ^ 13 % ulong)) in
    ((y + y + 1) * v % ulong, record { x = s.y; y = y; z = s.w; w = s.v; v = v })

unfoldable pub parity_error : Serial → IoPort → ℕ → IoPort × ℕ
parity_error se p lsr = (
  record p {
    errors = bit_or p.errors se.error_parity;
    perf_stats = record p.perf_stats {
      parity_error_count = (p.perf_stats.parity_error_count + 1) % ulong;
    };
  },
  bit_or lsr 0x04,
)

unfoldable pub frame_error : Serial → IoPort → ℕ → IoPort × ℕ
frame_error se p lsr = (
  record p {
    errors = bit_or p.errors se.error_framing;
    perf_stats = record p.perf_stats {
      frame_error_count = (p.perf_stats.frame_error_count + 1) % ulong;
    };
  },
  bit_or lsr 0x08,
)

unfoldable pub break_error : Serial → IoPort → ℕ → IoPort × ℕ
break_error se p lsr = (
  record p { errors = bit_or p.errors se.error_break },
  if p.line_control.parity == se.odd_parity || p.line_control.parity == se.mark_parity
      then bit_or (bit_or lsr 0x18) 0x04
      else bit_or lsr 0x18,
)

-- The wire and the line status, changed if `b`.
abbrev on_reader : Bool → (IoPort → ℕ → IoPort × ℕ) → Wire → ℕ → Wire × ℕ
on_reader b f w lsr =
    if b then (record w { reader = (f w.reader lsr).0 }, (f w.reader lsr).1) else (w, lsr)

abbrev draw : Wire → ℕ × Wire
draw w = let (r, s) = rand w.rand in (r, record w { rand = s })

abbrev has_parity : Serial → Wire → Bool
has_parity se w = not (w.writer.line_control.parity == se.no_parity)

-- The wire, the character and the line status.
unfoldable pub garbage_char : Serial → Wire → ℕ → Wire × ℕ × ℕ
garbage_char se w lsr =
    let (w1, lsr1) =
      if has_parity se w
      then on_reader (ltb 0 ((draw w).0 % 2)) (parity_error se) (draw w).1 lsr
      else (w, lsr) in
    let (r2, w2) = draw w1 in
    let (w3, lsr3) = on_reader (ltb 0 (r2 % 2)) (frame_error se) w2 lsr1 in
    let (r4, w4) = draw w3 in (w4, r4 % 256, lsr3)

-- Some of the following characters become garbage.
abbrev set_broke_chars : Wire → Wire
set_broke_chars w =
    let (r, w') = draw w in record w' { writer = record w'.writer { broke_chars = r % 512 } }

abbrev probability_one : ℕ
probability_one = 100000000

-- The bit of a character that is broken, counted with the start and the stop bit.
abbrev broken_bit : Serial → Wire → ℕ → ℕ → ℕ → Wire × ℕ × ℕ
broken_bit se w r ch lsr =
    let parity = w.writer.line_control.parity in
    if r == 0
    then garbage_char se (set_broke_chars w) lsr
    else if r == 1
    then (let (w', lsr') = on_reader true (frame_error se) (set_broke_chars w) lsr in
        (w', ch, lsr'))
    else if ltb (r - 2) w.writer.line_control.word_length
    then (let (w', lsr') =
          on_reader (parity == se.odd_parity || parity == se.even_parity) (parity_error se) w lsr in
        (w', bit_xor ch (2 ^ (r - 2)), lsr'))
    else (let (w', lsr') = on_reader true (parity_error se) w lsr in (w', ch, lsr'))

unfoldable pub broke_char : Serial → Wire → ℕ → ℕ → Wire × ℕ × ℕ
broke_char se w ch lsr =
    let (r, w1) = draw w in
    let (r2, w2) = draw w1 in
    let bits = 2 + w.writer.line_control.word_length + (if has_parity se w then 1 else 0) in
    if ltb (r % probability_one) w.writer.broke_chars_probability
    then broken_bit se w2 (r2 % bits) ch lsr
    else (w1, ch, lsr)

-- How many of so many characters are broken.
unfoldable pub get_broken_chars : ℕ → ℕ → Rand → ℕ × Rand
get_broken_chars probability zero s = (0, s)
get_broken_chars probability (suc chars) s =
    let (r, s') = rand s in
    let (n, t) = get_broken_chars probability chars s' in
    (if ltb (r % probability_one) probability then n + 1 else n, t)
