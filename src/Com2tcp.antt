-- ===== src/Com2tcp.antt =====
-- com2tcp, the program that joins a COM port to a TCP connection.
pub mod Stream
pub mod Telnet
