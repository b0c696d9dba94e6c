-- ===== src/Decoder.antt =====
-- boa/contracts/vyper/decoder_utils.py: the state variables of a contract as bytes, and as values.
pub mod Storage
pub mod Object
