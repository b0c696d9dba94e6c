-- ===== src/Fork.antt =====
-- boa/vm/fork.py: reads of a forked chain, cached and overridden by local writes.
pub mod CachingRpc
pub mod Storage
