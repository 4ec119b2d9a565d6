-- ===== src/Text.antt =====
-- The text formats that the code reads and writes: decimal numbers, hex, base64 and UTF-8.
pub mod Decimal
pub mod Hex
pub mod Utf8
pub mod Base64
pub mod Strip
