-- ===== src/Heap.antt =====
-- src/boot/heapmemmgmt.cpp: the regions of the kernel heap.
pub mod Regions
pub mod Tiling
pub mod Searching
pub mod Checking
pub mod Carving
pub mod Allocation
pub mod Creation
mod Tests
