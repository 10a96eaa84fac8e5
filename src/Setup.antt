-- ===== src/Setup.antt =====
-- The setup library of com0com: com0com/setup.
pub mod Params
