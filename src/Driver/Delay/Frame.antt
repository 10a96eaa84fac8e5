-- ===== src/Driver/Delay/Frame.antt =====
-- The length of a frame in `SetWriteDelay` of com0com/sys/delay.c.
use com0com.Base.{ℕ, ◌+◌, ◌*◌, Bool, true, false, ◌≡◌, if◌then◌else◌, arith}
use com0com.Driver.Delay.{Stop, one, one_and_half, two, LineControl, params_of}

-- The halves of a bit in the stop bits of a frame, and in the frame.
abbrev pub stop_halves : Stop → ℕ
stop_halves one = 2
stop_halves one_and_half = 3
stop_halves two = 4

-- The start bit, the word and the parity, and the stop bits.
abbrev pub frame_halves : LineControl → ℕ
frame_halves line =
    2 + 2 * line.word_length + (if line.parity then 2 else 0) + stop_halves line.stop_bits

-- One bit more, for a frame with two stop bits.
abbrev pub excess : Stop → ℕ
excess two = 10
excess _ = 0

frame-Excess :
    (baud w : ℕ) (b : Bool) (s : Stop)
    → (params_of baud (record { word_length = w; parity = b; stop_bits = s })).decibits_per_frame
      ≡ 5 * frame_halves (record { word_length = w; parity = b; stop_bits = s }) + excess s
unfolding params_of
frame-Excess baud w true one = omega arith
frame-Excess baud w true one_and_half = omega arith
frame-Excess baud w true two = omega arith
frame-Excess baud w false one = omega arith
frame-Excess baud w false one_and_half = omega arith
frame-Excess baud w false two = omega arith

-- SetWriteDelay counts the tenths of a bit in a frame, its start bit, word, parity and stop bits, but
-- it counts two stop bits as three.
pub params_of-Excess :
    (baud : ℕ) (line : LineControl)
    → (params_of baud line).decibits_per_frame ≡ 5 * frame_halves line + excess line.stop_bits
params_of-Excess baud line = frame-Excess baud line.word_length line.parity line.stop_bits
