-- ===== src/Tests.antt =====
-- Runs of the models at concrete inputs.
mod Util
mod Fork
mod Abi
mod Decoder
mod Gas
mod Machine
mod Ir
mod Node
mod Network
mod Rpc
mod Deployments
mod Session
