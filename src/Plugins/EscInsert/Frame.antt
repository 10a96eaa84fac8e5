-- ===== src/Plugins/EscInsert/Frame.antt =====
-- What the escinsert filter (hub4com/plugins/escinsert/filter.cpp) writes, read by the grammar of
-- the escparse filter (hub4com/plugins/escparse/filter.cpp).
use com0com.Base.{
  ℕ, ◌/◌, ◌<◌, ◌^◌, List, [], ◌∷◌, ◌==◌, ◌≡◌, refl, arith, nonzero, if◌then◌else◌, bit_and, bit_or,
  Bool-cases, inl, inr, append-nil,
}
use com0com.Hub.Word.{byte, val2mask, go1_rbr_status, go1_rlc_status}
use com0com.Hub.Msg
use com0com.Hub.Chain.Content.{Event, data_byte, value, bytes}
use com0com.Plugins.Lsrmst.{Lsrmst, IsLsrmst}
use com0com.Plugins.EscParse.{rlc_val}
use com0com.Plugins.EscParse.Frames.{Wants, text, event_if, lsr_events, mode_after, decode}
use com0com.Plugins.EscInsert.{status_bytes, rbr_bytes, rlc_bytes, escape_bytes}

-- `bs` is a whole number of frames and plain bytes, and stands for these events.
pub record Says (sc : Lsrmst) (esc : ℕ) (w : Wants) (bs : List ℕ) (es : List Event) : Type 0 where
  pub whole : mode_after sc esc text bs ≡ text
  pub reads : decode sc esc w text bs ≡ es

module _ (sc : Lsrmst) (esc : ℕ) (w : Wants) (q : IsLsrmst sc) where
  -- A byte of line data, with the escape character doubled by its code.
  Says-byte :
      (ch : ℕ) (bs : List ℕ) (es : List Event)
      → Says sc esc w bs es
      → Says sc esc w (if ch == esc then ch ∷ sc.escape ∷ bs else ch ∷ bs) (data_byte ch ∷ es)
  Says-byte ch bs es h = elim (Bool-cases (ch == esc)) [
    | inl e ↦ record { whole = ground arith; reads = ground arith }
    | inr e ↦ record { whole = ground arith; reads = ground arith }
  ]

  -- Escaped line data reads back as the line data.
  pub escape_bytes-Says : (bs : List ℕ) → Says sc esc w (escape_bytes sc esc bs) (bytes bs)
  unfolding escape_bytes
  escape_bytes-Says [] = record { whole = refl; reads = refl }
  escape_bytes-Says (ch ∷ bs) =
      Says-byte ch (escape_bytes sc esc bs) (bytes bs) (escape_bytes-Says bs)

  pub mst-Says :
      (v : ℕ)
      → Says sc esc w
          (status_bytes esc sc.mst v)
          (event_if (nonzero w.mask_mst) (value Msg.modem_status (bit_or v (val2mask w.mask_mst))))
  mst-Says v = record { whole = ground arith; reads = ground arith }

  pub nodata-Says : (v : ℕ) → Says sc esc w (status_bytes esc sc.lsr_nodata v) (lsr_events w v)
  nodata-Says v = record {
    whole = ground arith;
    reads = ground (arith, append-nil (lsr_events w v));
  }

  pub rbr-Says :
      (v : ℕ)
      → v < 2 ^ 32
      → Says sc esc w
          (rbr_bytes esc v)
          (event_if (nonzero (bit_and w.options go1_rbr_status)) (value Msg.rbr_status v))
  rbr-Says v h = record { whole = ground arith; reads = ground arith }

  pub rlc-Says :
      (v : ℕ)
      → Says sc esc w (rlc_bytes esc v) (
          event_if (nonzero (bit_and w.options go1_rlc_status)) (
            value Msg.rlc_status (
              rlc_val
                (record { b0 = byte v; b1 = byte (v / 0x100); b2 = byte (v / 0x10000); b3 = 0 }))))
  rlc-Says v = record { whole = ground arith; reads = ground arith }
