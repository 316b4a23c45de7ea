-- ===== src/Lfkv.antt =====
-- lfkv.c: the key-value table of the server, by open addressing. Each operation is one run of its
-- code by one thread, so that a compare-and-exchange sees the value just loaded.
pub mod Defs
pub mod Ops
pub mod Slots
pub mod Valid
pub mod Probe
pub mod Write
pub mod Current
pub mod Refine
pub mod Claim
pub mod Insert
pub mod Set
pub mod SetNx
pub mod Hang
pub mod Sweep
pub mod Evict
pub mod Visit
pub mod New
mod Tests
