-- ===== src/Physical.antt =====
-- src/boot/phymemmgmt.cpp: the physical page allocator. One bitmap for each buddy order, one after
-- another in memory; a set bit marks a used buddy.
pub mod Pages
pub mod Marking
pub mod Request
pub mod Initialize
pub mod Layout
pub mod Sync
pub mod Invariant
pub mod Counting
pub mod Closing
pub mod MarkPages
pub mod Contiguous
pub mod Buddies
pub mod BuddyRequest
pub mod Handover
pub mod Limits
pub mod Startup
mod Tests
