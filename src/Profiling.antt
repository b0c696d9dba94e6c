-- ===== src/Profiling.antt =====
-- boa/profiling.py: the gas of a computation by program counter and by source line.
pub mod Datum
pub mod Computation
pub mod ByPc
pub mod ByLine
