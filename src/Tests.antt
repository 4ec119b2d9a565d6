-- ===== src/Tests.antt =====
-- Runs of the model on small inputs, and each theorem at one of them.
mod Toy
mod Attest
mod Quotes
mod Texts
mod Adapter
mod Clients
mod Machines
mod Calls
mod Sessions
