-- ===== src/Scheduler.antt =====
-- src/boot/scheduler.cpp: the event queue.
pub mod Loop
pub mod Fifo
mod Tests
