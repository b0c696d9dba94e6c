-- ===== src/Vm.antt =====
-- boa/vm: gas meters, the machine's patches and hooks, and its memory.
pub mod FastAccountDb
pub mod GasMeters
pub mod Patcher
pub mod Precompiles
