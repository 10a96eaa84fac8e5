-- ===== src/Examples/Buffers.antt =====
-- The driver's buffers: com0com/sys/bufutils.c.
use com0com.Base.{true, false, some, none, Option, [], ◌∷◌, ◌≡◌, refl, arith, replicate, ℕ, List}
use com0com.Plugins.Lsrmst.{Lsrmst}
use com0com.Driver.RawData.{RawData, IsRaw, kept}
use com0com.Driver.Port.{Serial, IoPort, Wire}
use com0com.Driver.Line.{FlowFilter, Sender, flow_filter_init}
use com0com.Driver.Escape.{copy_chars_with_escape}
use com0com.Driver.Escape.Arrivals.{Copies, copy_chars_with_escape-Copies}
use com0com.Driver.Escape.Quiet.{IsQuiet}
use com0com.Driver.Buffer.{
  Buffer, Written, init_buffer, out_of, read_from_buffer, write_to_buffer, write_raw_data_to_buffer,
  set_new_buffer_base, write_mandatory_to_buffer,
}
use com0com.Driver.Buffer.Queue.{Queued}
use com0com.Driver.Buffer.Read.{Reads, read_from_buffer-Reads}
use com0com.Driver.Buffer.Write.{Writes, sender_of, write_to_buffer-Writes}
use com0com.Driver.Buffer.Setup.{Enlarges, init_buffer-Queued, set_new_buffer_base-Enlarges}
use com0com.Driver.Buffer.Raw.{RawWrites, write_raw_data_to_buffer-RawWrites}
use com0com.Driver.Buffer.Transfer.{Transfers, write-read}
use com0com.Driver.Ring.{wrapped}
use com0com.Driver.TxBuffer.{TxBuffer, write_to_tx_buffer, read_from_tx_buffer, move_from_tx_buffer}
use com0com.Driver.TxBuffer.Fill.{Takes, TxStored, write_to_tx_buffer-Takes}
use com0com.Driver.TxBuffer.Transmit.{Transmits, move_from_tx_buffer-Transmits}
use com0com.Driver.TxBuffer.Drain.{Drains, read_from_tx_buffer-Drains}

abbrev serial : Serial
serial = record {
  dsr_sensitivity = 0x40;
  auto_transmit = 0x01;
  error_char = 0x04;
  null_stripping = 0x08;
  break_char = 0x10;
  tx_waiting_on_break = 0x10;
  error_break = 0x01;
  error_framing = 0x02;
  error_parity = 0x10;
  ev_rxchar = 0x01;
  ev_rxflag = 0x02;
  ev_break = 0x40;
  ev_err = 0x80;
  no_parity = 0;
  odd_parity = 1;
  even_parity = 2;
  mark_parity = 3;
}

abbrev codes : Lsrmst
codes = record { escape = 0; lsr_data = 1; lsr_nodata = 2; mst = 3 }

-- A port with 8 data bits and the escape character 27.
abbrev port : IoPort
port = record {
  line_control = record { word_length = 8; parity = 0 };
  hand_flow = record { control_hand_shake = 0; flow_replace = 0 };
  special_chars = record {
    error_char = 0;
    break_char = 0;
    event_char = 0;
    xon_char = 17;
    xoff_char = 19;
  };
  errors = 0;
  wait_mask = 0;
  insert_mask = 1;
  escape_char = 27;
  perf_stats = record { frame_error_count = 0; parity_error_count = 0 };
  modem_status = 0;
  tx_busy = 0;
  broke_chars_probability = 0;
  broke_chars = 0;
  write_holding = 0;
  send_break = false;
  rcvd_break = false;
  all_data_bits = false;
}

abbrev wire : Wire
wire = record { reader = port; writer = port; rand = record { x = 1; y = 2; z = 3; w = 4; v = 5 } }

abbrev filter : FlowFilter
filter = record { events = 0; flags = 0; last_xon_xoff = 0; rx_count = 0 }

wire-IsQuiet : IsQuiet serial wire
wire-IsQuiet = record { no_break = refl; not_held = refl; no_garbage = refl; no_noise = refl }

abbrev small : Buffer
small = record {
  has_base = true;
  mem = 0 ∷ 0 ∷ 0 ∷ [];
  p_busy = 0;
  p_free = 0;
  p_end = 3;
  busy = 0;
  limit = 3;
  size80 = 3;
  insert_data = record { size = 0; bytes = replicate 7 0 };
}

small-Queued : Queued small []
unfolding init_buffer com0com.Driver.Buffer.purge_buffer com0com.Driver.Buffer.init_buffer_base
small-Queued = init_buffer-Queued (0 ∷ 0 ∷ 0 ∷ []) (omega arith)

abbrev raw : RawData
raw = record { size = 3; bytes = 27 ∷ 3 ∷ 16 ∷ 0 ∷ 0 ∷ 0 ∷ 0 ∷ [] }

raw-IsRaw : IsRaw raw
raw-IsRaw = record { array = refl; fits = omega arith }

abbrev read_all : Option Written → List ℕ
read_all none = []
read_all (some r) = elim (read_from_buffer r.buf 9) [ none ↦ [] | some t ↦ t.0 ]

-- The escape character has a code behind it, which waits since the buffer is full; 67 is not used.
write_and_read :
    read_all
      (write_to_buffer serial codes false small (sender_of wire filter (65 ∷ 66 ∷ 27 ∷ 67 ∷ [])) 4)
    ≡ 65 ∷ 66 ∷ 27 ∷ 0 ∷ []
unfolding com0com.Driver.Buffer.write_to_buffer com0com.Driver.Buffer.write_loop
    com0com.Driver.Buffer.read_from_buffer com0com.Driver.Buffer.read_loop
    com0com.Driver.Escape.copy_chars_with_escape com0com.Driver.Escape.copy_loop
    com0com.Driver.Escape.turn_out com0com.Driver.Escape.fate com0com.Driver.Escape.reported_lsr
    com0com.Driver.Line.heard com0com.Driver.Line.data_mask com0com.Driver.Output.flush_insert
    com0com.Driver.RawData.add_raw_data com0com.Driver.RawData.compact_raw_data
write_and_read = refl

copy_chars_with_escape-Copies_example :
    Copies serial codes 3 (sender_of wire filter (65 ∷ 66 ∷ 27 ∷ [])) (out_of small 3) (
      copy_chars_with_escape serial codes 3
        (sender_of wire filter (65 ∷ 66 ∷ 27 ∷ []))
        (out_of small 3))
copy_chars_with_escape-Copies_example =
    copy_chars_with_escape-Copies serial codes 3 (sender_of wire filter (65 ∷ 66 ∷ 27 ∷ []))
      (out_of small 3) refl (record { array = refl; fits = omega arith }) refl

write_to_buffer-Writes_example :
    Writes codes 3 0 wire 0 []
      (65 ∷ 66 ∷ 27 ∷ 67 ∷ [])
      4
      (write_to_buffer serial codes false small (sender_of wire filter (65 ∷ 66 ∷ 27 ∷ 67 ∷ [])) 4)
write_to_buffer-Writes_example =
    write_to_buffer-Writes serial codes 4 small wire filter [] (65 ∷ 66 ∷ 27 ∷ 67 ∷ []) wire-IsQuiet
      (omega arith) small-Queued

read_from_buffer-Reads_example : Reads [] 5 (read_from_buffer small 5)
read_from_buffer-Reads_example = read_from_buffer-Reads small [] 5 small-Queued

write-read_example :
    Transfers codes
      (record { options = 0; mask_mst = 0; mask_lsr = 0 })
      wire
      0
      (65 ∷ 66 ∷ 27 ∷ 67 ∷ [])
      9
      (write_to_buffer serial codes false small (sender_of wire filter (65 ∷ 66 ∷ 27 ∷ 67 ∷ [])) 4)
unfolding com0com.Driver.Escape.Quiet.encode com0com.Driver.Escape.fate
    com0com.Driver.Line.data_mask
write-read_example =
    write-read serial codes (record { options = 0; mask_mst = 0; mask_lsr = 0 }) 4 9 small wire
      filter (65 ∷ 66 ∷ 27 ∷ 67 ∷ []) wire-IsQuiet (omega arith) small-Queued
      (λ e. omega (arith, e)) (omega arith)

set_new_buffer_base-Enlarges_example :
    Enlarges small [] 4 (set_new_buffer_base small (0 ∷ 0 ∷ 0 ∷ 0 ∷ []) 4)
set_new_buffer_base-Enlarges_example =
    set_new_buffer_base-Enlarges small [] (0 ∷ 0 ∷ 0 ∷ 0 ∷ []) small-Queued

write_raw_data_to_buffer-RawWrites_example :
    RawWrites [] (27 ∷ 3 ∷ 16 ∷ []) 3 (write_raw_data_to_buffer raw small)
write_raw_data_to_buffer-RawWrites_example =
    write_raw_data_to_buffer-RawWrites raw small [] raw-IsRaw small-Queued

-- One byte is in the shift register, at the end of the array.
abbrev fifo : TxBuffer
fifo = record { mem = 0 ∷ 0 ∷ 0 ∷ 65 ∷ []; p_busy = 3; p_free = 0; p_end = 4; busy = 1 }

fifo-TxStored : TxStored fifo (65 ∷ [])
fifo-TxStored = record {
  ring = wrapped [] (0 ∷ 0 ∷ 0 ∷ []) (65 ∷ []) refl refl refl refl (omega arith) refl;
  end = refl;
}

write_to_tx_buffer-Takes_example :
    Takes
      (65 ∷ [])
      (66 ∷ 67 ∷ 68 ∷ 69 ∷ [])
      3
      4
      (write_to_tx_buffer fifo (66 ∷ 67 ∷ 68 ∷ 69 ∷ []) 4)
write_to_tx_buffer-Takes_example =
    write_to_tx_buffer-Takes fifo (65 ∷ []) (66 ∷ 67 ∷ 68 ∷ 69 ∷ []) 4 fifo-TxStored (omega arith)
      (omega arith)

read_from_tx_buffer-Drains_example :
    Drains codes wire 0 raw
      (65 ∷ [])
      5
      9
      (read_from_tx_buffer serial codes raw fifo (sender_of wire filter []) 5 9)
read_from_tx_buffer-Drains_example =
    read_from_tx_buffer-Drains codes wire 0 serial raw fifo (65 ∷ []) (sender_of wire filter []) 5 9
      wire-IsQuiet raw-IsRaw fifo-TxStored refl refl

move_from_tx_buffer-Transmits_example :
    Transmits codes wire 0 3 0 []
      (65 ∷ [])
      9
      (move_from_tx_buffer serial codes false small fifo (sender_of wire filter []) 9)
move_from_tx_buffer-Transmits_example =
    move_from_tx_buffer-Transmits codes wire 0 serial small fifo (sender_of wire filter []) []
      (65 ∷ []) 9 wire-IsQuiet refl refl small-Queued fifo-TxStored
