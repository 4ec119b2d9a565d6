-- ===== src/Receipt.antt =====
-- The signed receipt.
pub mod Escape
pub mod Canonical
pub mod Verify
