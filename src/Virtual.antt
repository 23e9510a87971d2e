-- ===== src/Virtual.antt =====
-- src/boot/virtualmemmgmt.cpp: the lists of address space blocks of the virtual memory manager.
pub mod Space
pub mod Freeing
pub mod Requesting
pub mod Regions
pub mod Defrag
pub mod Check
pub mod Claim
pub mod Upkeep
pub mod Rounds
pub mod Request
pub mod Release
pub mod FreePages
pub mod Initial
mod Tests
