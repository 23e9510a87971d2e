-- ===== src/Keyboard.antt =====
-- src/drivers/ps2/keyboard.cpp: the scan codes and the locks of the PS/2 keyboard.
pub mod Codes
pub mod Handler
pub mod Decoding
pub mod Locks
mod Tests
