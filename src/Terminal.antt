-- ===== src/Terminal.antt =====
-- src/boot/terminal.cpp: the text screen.
pub mod Screen
pub mod Cursor
pub mod Lines
pub mod Numbers
mod Tests
