-- ===== src/Quote.antt =====
-- `dcap.py`: Intel TDX quotes.
pub mod Parse
pub mod Token
pub mod TrustAuthority
pub mod Policy
