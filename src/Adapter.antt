-- ===== src/Adapter.antt =====
-- `cp-adapter`: the bridge from an operator's gateway to capability tokens.
pub mod Verdict
pub mod Url
pub mod Gateway
pub mod NewApi
pub mod Token
pub mod Server
pub mod Config
