-- ===== src/Paging.antt =====
-- src/boot/virtualmemmgmt.cpp: the four levels of page tables.
pub mod Tables
pub mod Mapping
pub mod Unmapping
pub mod Tree
pub mod Growth
pub mod Leaf
pub mod Sound
pub mod CrawlLaws
pub mod MapLaws
pub mod MapPage
pub mod MapRange
pub mod Recursive
pub mod Cleared
pub mod UnmapLaws
pub mod UnmapRange
mod Tests
