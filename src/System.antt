-- ===== src/System.antt =====
-- The parts of the program on one world.
mod Rules
pub mod Quiet
pub mod Messages
