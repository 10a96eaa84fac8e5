-- ===== src/Driver/Port.antt =====
-- The fields of `C0C_IO_PORT` of com0com/sys/com0com.h that the transfer of characters uses, and
-- the constants of the Windows header ntddser.h, which are a parameter.
use com0com.Base.{ℕ, Bool}

-- The values of ntddser.h, named without their prefix SERIAL_.
pub record Serial : Type 0 where
  pub dsr_sensitivity : ℕ
  pub auto_transmit : ℕ
  pub error_char : ℕ
  pub null_stripping : ℕ
  pub break_char : ℕ
  pub tx_waiting_on_break : ℕ
  pub error_break : ℕ
  pub error_framing : ℕ
  pub error_parity : ℕ
  pub ev_rxchar : ℕ
  pub ev_rxflag : ℕ
  pub ev_break : ℕ
  pub ev_err : ℕ
  pub no_parity : ℕ
  pub odd_parity : ℕ
  pub even_parity : ℕ
  pub mark_parity : ℕ

pub record LineControl : Type 0 where
  pub word_length : ℕ
  pub parity : ℕ

pub record HandFlow : Type 0 where
  pub control_hand_shake : ℕ
  pub flow_replace : ℕ

pub record SpecialChars : Type 0 where
  pub error_char : ℕ
  pub break_char : ℕ
  pub event_char : ℕ
  pub xon_char : ℕ
  pub xoff_char : ℕ

pub record PerfStats : Type 0 where
  pub frame_error_count : ℕ
  pub parity_error_count : ℕ

-- `tx_busy` is `txBuf.busy`.
pub record IoPort : Type 0 where
  pub line_control : LineControl
  pub hand_flow : HandFlow
  pub special_chars : SpecialChars
  pub errors : ℕ
  pub wait_mask : ℕ
  pub insert_mask : ℕ
  pub escape_char : ℕ
  pub perf_stats : PerfStats
  pub modem_status : ℕ
  pub tx_busy : ℕ
  pub broke_chars_probability : ℕ
  pub broke_chars : ℕ
  pub write_holding : ℕ
  pub send_break : Bool
  pub rcvd_break : Bool
  pub all_data_bits : Bool

-- The static variables of `RAND`.
pub record Rand : Type 0 where
  pub x : ℕ
  pub y : ℕ
  pub z : ℕ
  pub w : ℕ
  pub v : ℕ

-- The port that receives, the port that sends (`pIoPort` and its `pIoPortRemote`), and the state
-- of the random numbers.
pub record Wire : Type 0 where
  pub reader : IoPort
  pub writer : IoPort
  pub rand : Rand

abbrev pub msb_dsr : ℕ
msb_dsr = 0x20
