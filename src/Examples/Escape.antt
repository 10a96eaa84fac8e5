-- ===== src/Examples/Escape.antt =====
-- The escaped data stream: hub4com/plugins/escparse and hub4com/plugins/escinsert.
use com0com.Base.{ℕ, true, List, [], ◌∷◌, ◌++◌, ◌≡◌, refl, arith}
use com0com.Hub.Msg
use com0com.Hub.Msg.{Msg, new}
use com0com.Hub.Memory.{Memory}
use com0com.Hub.Chain.Content.{data_byte, value}
use com0com.Plugins.Lsrmst.{Lsrmst, IsLsrmst}
use com0com.Plugins.EscParse
use com0com.Plugins.EscParse.{convert}
use com0com.Plugins.EscParse.Frames.{Wants, text, mode_after}
use com0com.Plugins.EscParse.Refine.{Ready, output, convert-decode, convert-append}
use com0com.Plugins.EscParse.Method.{Filter, in_method}
use com0com.Plugins.EscParse.Agreement.{wants_of}
use com0com.Plugins.EscParse.Session.{received, received-agreed}
use com0com.Plugins.EscInsert
use com0com.Plugins.EscInsert.{escape_bytes, out_method}
use com0com.Plugins.EscInsert.RoundTrip.{Fine, convert-out_method, out_method-Fine}

abbrev codes : Lsrmst
codes = record { escape = 0; lsr_data = 1; lsr_nodata = 2; mst = 3 }

codes-IsLsrmst : IsLsrmst codes
codes-IsLsrmst = record {
  escape_ne_data = λ e. omega (arith, e);
  escape_ne_nodata = λ e. omega (arith, e);
  escape_ne_mst = λ e. omega (arith, e);
  data_ne_nodata = λ e. omega (arith, e);
  data_ne_mst = λ e. omega (arith, e);
  nodata_ne_mst = λ e. omega (arith, e);
  escape-lt = omega arith;
  data-lt = omega arith;
  nodata-lt = omega arith;
  mst-lt = omega arith;
}

abbrev everything : ℕ
everything = 0x7ffff

abbrev wants : Wants
wants = wants_of everything

-- A parser that has been asked for everything.
abbrev parser : EscParse.State
parser = record EscParse.new_state {
  esc_mode = true;
  options = everything;
  mask_mst = 255;
  mask_lsr = 255;
}

parser-Ready : Ready codes wants text parser
parser-Ready = record {
  wants = record { has_esc_mode = refl; has_options = refl; has_mst = refl; has_lsr = refl };
  tracks = (refl, refl);
  flushed = refl;
}

abbrev line : List ℕ → Msg
line bs = record new { type = Msg.line_data; buf = bs }

-- "A", a modem status, and the start of a baud rate.
abbrev stream : Msg
stream = line (65 ∷ 255 ∷ 3 ∷ 0x31 ∷ 255 ∷ 16 ∷ 0 ∷ [])

convert-decode_example :
    (output (convert codes 255 parser stream) ≡ data_byte 65 ∷ value Msg.modem_status 0xff0031 ∷ [])
    × Ready codes wants (mode_after codes 255 text stream.buf) (convert codes 255 parser stream).st
convert-decode_example =
    convert-decode codes 255 wants codes-IsLsrmst text parser parser-Ready stream

convert-append_example :
    let s = (convert codes 255 parser stream).st in
    let rest = line (0x96 ∷ 0 ∷ 0 ∷ []) in
    let whole = line (65 ∷ 255 ∷ 3 ∷ 0x31 ∷ 255 ∷ 16 ∷ 0 ∷ 0x96 ∷ 0 ∷ 0 ∷ []) in
    (output (convert codes 255 parser stream) ++ output (convert codes 255 s rest)
      ≡ output (convert codes 255 parser whole))
    × Ready codes wants (mode_after codes 255 text whole.buf) (convert codes 255 s rest).st
    × Ready codes wants (mode_after codes 255 text whole.buf) (convert codes 255 parser whole).st
convert-append_example =
    convert-append codes 255 wants codes-IsLsrmst text parser parser-Ready stream
      (line (0x96 ∷ 0 ∷ 0 ∷ [])) (line (65 ∷ 255 ∷ 3 ∷ 0x31 ∷ 255 ∷ 16 ∷ 0 ∷ 0x96 ∷ 0 ∷ 0 ∷ []))
      refl

abbrev port : EscInsert.State
port = record EscInsert.new_state { is_connected = true; so_mask = 0x3fff100 }

convert-out_method_example :
    let r =
      convert codes 255 parser
        (out_method codes EscInsert.new_filter port (line (255 ∷ 65 ∷ []))).1.here in
    (output r ≡ data_byte 255 ∷ data_byte 65 ∷ []) × Ready codes wants text r.st
convert-out_method_example =
    convert-out_method codes EscInsert.new_filter wants codes-IsLsrmst port parser
      (line (255 ∷ 65 ∷ [])) refl parser-Ready

out_method-Fine_example :
    Fine codes 255 (out_method codes EscInsert.new_filter port (line (255 ∷ 65 ∷ []))).1
out_method-Fine_example =
    out_method-Fine codes EscInsert.new_filter port (line (255 ∷ 65 ∷ [])) codes-IsLsrmst

abbrev baud : Msg
baud = record new { type = Msg.set_br; val = 9600 }

abbrev filter : Filter
filter = EscParse.Method.new_filter

abbrev memory : Memory
memory a = 0x10000

abbrev offer : Msg
offer = record new { type = Msg.get_in_opts; pv_val = 7; p_val = 5 }

-- The filters behind want break and baud rate; a message ends inside of the rate.
abbrev chunks : List (List ℕ)
chunks = (65 ∷ 255 ∷ 16 ∷ 0 ∷ []) ∷ (0x96 ∷ 0 ∷ 0 ∷ 66 ∷ []) ∷ []

received-agreed_example :
    let o = in_method codes 1 filter EscParse.new_state offer memory in
    (o.mem 5 ≡ 0x10001)
    × (received codes 1 filter o.st o.mem chunks
        ≡ data_byte 65 ∷ value Msg.rbr_status 0x9600 ∷ data_byte 66 ∷ [])
received-agreed_example =
    received-agreed codes 1 filter EscParse.new_state offer memory chunks codes-IsLsrmst refl refl
      refl refl refl (refl, refl) refl
