-- ===== src/Text.antt =====
-- Decimal numerals as package strconv and the verb %d write and read them.
pub mod Decimal
pub mod Trim
