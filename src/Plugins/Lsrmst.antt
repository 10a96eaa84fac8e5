-- ===== src/Plugins/Lsrmst.antt =====
-- The codes that follow the escape character in an escaped data stream. The SERIAL_LSRMST_ codes
-- come from the Windows headers, so they are a parameter; the other two are those of
-- hub4com/plugins/cncext.h.
use com0com.Base.{ℕ, ◌<◌, ◌≢◌}

pub record Lsrmst : Type 0 where
  pub escape : ℕ
  pub lsr_data : ℕ
  pub lsr_nodata : ℕ
  pub mst : ℕ

abbrev pub insert_rbr : ℕ
insert_rbr = 16

abbrev pub insert_rlc : ℕ
insert_rlc = 17

-- What the headers document: four different codes, below those that the driver adds.
pub record IsLsrmst (sc : Lsrmst) : Type 0 where
  pub escape_ne_data : sc.escape ≢ sc.lsr_data
  pub escape_ne_nodata : sc.escape ≢ sc.lsr_nodata
  pub escape_ne_mst : sc.escape ≢ sc.mst
  pub data_ne_nodata : sc.lsr_data ≢ sc.lsr_nodata
  pub data_ne_mst : sc.lsr_data ≢ sc.mst
  pub nodata_ne_mst : sc.lsr_nodata ≢ sc.mst
  pub escape-lt : sc.escape < insert_rbr
  pub data-lt : sc.lsr_data < insert_rbr
  pub nodata-lt : sc.lsr_nodata < insert_rbr
  pub mst-lt : sc.mst < insert_rbr
