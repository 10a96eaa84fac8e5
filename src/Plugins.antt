-- ===== src/Plugins.antt =====
-- The filters of hub4com/plugins.
pub mod Lsrmst
pub mod EscParse
pub mod EscInsert
pub mod Telnet
pub mod AwakSeq
pub mod Echo
pub mod Purge
pub mod LsrMap
pub mod ComPort
pub mod Pin2Con
