-- ===== src/Examples.antt =====
-- Runs of the code on concrete inputs.
mod Doubles
mod Core
mod Values
mod Protos
mod Machine
mod Tokens
mod Decoding
mod Calls
