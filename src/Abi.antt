-- ===== src/Abi.antt =====
-- boa/contracts/abi/abi_contract.py and boa/contracts/event_decoder.py: calls and logs by ABI.
pub mod Json
pub mod Function
pub mod Events
