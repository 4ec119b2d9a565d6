-- ===== src/Deploy.antt =====
-- deploy/gcp: the client of the cloud's API, and the scripts that launch the enclave with it.
pub mod Settings
pub mod Machine
pub mod Account
pub mod Gcp
pub mod Launch
pub mod Relaunch
pub mod Ratls
pub mod Provision
