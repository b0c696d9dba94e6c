-- ===== src/Util.antt =====
-- boa/util: the bounded dictionary, and the bytecode formats of EIP-1167 and ERC-5202.
pub mod Lrudict
pub mod Eip1167
pub mod Eip5202
