-- ===== src/LibC.antt =====
-- src/lib/libkc++.cpp: the C string and memory functions of the kernel. Memory is a function from
-- addresses to bytes.
pub mod Strings
pub mod Copying
pub mod StringLaws
pub mod CopyLaws
mod Tests
