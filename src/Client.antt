-- ===== src/Client.antt =====
-- `FidClient`: the client that verifies an enclave before it sends anything to it.
pub mod State
pub mod Binding
pub mod Mock
pub mod Confidential
pub mod Tdx
pub mod Attest
pub mod Infer
pub mod Session
