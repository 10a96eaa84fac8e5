-- ===== src/Driver.antt =====
-- The com0com driver, com0com/sys: the buffers between its ports.
pub mod RawData
pub mod Ring
pub mod Port
pub mod Noise
pub mod Output
pub mod Line
pub mod Escape
pub mod Buffer
pub mod TxBuffer
pub mod HandFlow
pub mod Pins
pub mod Delay
