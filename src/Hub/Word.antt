-- ===== src/Hub/Word.antt =====
-- The macros of hub4com/plugins/plugins_api.h on BYTE, WORD and DWORD values.
use com0com.Base.{ℕ, ◌-◌, ◌*◌, ◌/◌, ◌%◌, ◌^◌, bit_and}

abbrev pub byte : ℕ → ℕ
byte x = x % 256

abbrev pub word : ℕ → ℕ
word x = x % 65536

abbrev pub dword : ℕ → ℕ
dword x = x % 2 ^ 32

-- `~x` of a DWORD.
abbrev pub not32 : ℕ → ℕ
not32 x = 0xffffffff - dword x

-- `a & ~b`.
abbrev pub clear_bits : ℕ → ℕ → ℕ
clear_bits a b = bit_and a (not32 b)

-- VAL2MASK and MASK2VAL.
abbrev pub val2mask : ℕ → ℕ
val2mask v = word v * 65536

abbrev pub mask2val : ℕ → ℕ
mask2val m = word (m / 65536)

-- HUB_MSG_T2N.
abbrev pub t2n : ℕ → ℕ
t2n t = byte t

-- GO_O2I and GO_I2O: the set-ID in the two top bits.
abbrev pub go_o2i : ℕ → ℕ
go_o2i o = dword o / 2 ^ 30

abbrev pub go_i2o : ℕ → ℕ
go_i2o i = dword (i * 2 ^ 30)

abbrev pub go0_escape_mode : ℕ
go0_escape_mode = 1

abbrev pub go1_rbr_status : ℕ
go1_rbr_status = 0x10000

abbrev pub go1_rlc_status : ℕ
go1_rlc_status = 0x20000

abbrev pub go1_break_status : ℕ
go1_break_status = 0x40000

abbrev pub go1_purge_tx_in : ℕ
go1_purge_tx_in = 0x80000

-- GO1_O2V_MODEM_STATUS, GO1_O2V_LINE_STATUS and GO1_V2O_LINE_STATUS.
abbrev pub go1_o2v_modem_status : ℕ → ℕ
go1_o2v_modem_status o = byte o

abbrev pub go1_o2v_line_status : ℕ → ℕ
go1_o2v_line_status o = byte (o / 256)

abbrev pub go1_v2o_line_status : ℕ → ℕ
go1_v2o_line_status v = byte v * 256

-- SO_O2V_PIN_STATE, SO_O2V_LINE_STATUS, SO_V2O_LINE_STATUS and the SO_ flags.
abbrev pub so_o2v_pin_state : ℕ → ℕ
so_o2v_pin_state o = word o

abbrev pub so_o2v_line_status : ℕ → ℕ
so_o2v_line_status o = byte (o / 65536)

abbrev pub so_v2o_line_status : ℕ → ℕ
so_v2o_line_status v = byte v * 65536

abbrev pub so_set_br : ℕ
so_set_br = 0x1000000

abbrev pub so_set_lc : ℕ
so_set_lc = 0x2000000

abbrev pub so_purge_tx : ℕ
so_purge_tx = 0x4000000

-- Line control: byte size, parity and stop bits, each with its mask bit.
abbrev pub lc_mask_bytesize : ℕ
lc_mask_bytesize = 0x1000000

abbrev pub lc_mask_parity : ℕ
lc_mask_parity = 0x2000000

abbrev pub lc_mask_stopbits : ℕ
lc_mask_stopbits = 0x4000000

abbrev pub lc2val_bytesize : ℕ → ℕ
lc2val_bytesize t = byte t

abbrev pub lc2val_parity : ℕ → ℕ
lc2val_parity t = byte (t / 256)

abbrev pub lc2val_stopbits : ℕ → ℕ
lc2val_stopbits t = byte (t / 65536)

abbrev pub val2lc_bytesize : ℕ → ℕ
val2lc_bytesize v = byte v

abbrev pub val2lc_parity : ℕ → ℕ
val2lc_parity v = byte v * 256

abbrev pub val2lc_stopbits : ℕ → ℕ
val2lc_stopbits v = byte v * 65536

-- LINE_STATUS_BI, PIN_STATE_BREAK and SPS_P2V_MST.
abbrev pub line_status_bi : ℕ
line_status_bi = 0x10

abbrev pub pin_state_break : ℕ
pin_state_break = 0x100

abbrev pub sps_p2v_mst : ℕ → ℕ
sps_p2v_mst p = byte (bit_and p 0xf000 / 256)
