-- ===== src/Clients.antt =====
-- Clients, their API keys and the guard that checks them (src/clients/, src/auth/).
pub mod Directory
pub mod Service
pub mod Sound
pub mod Requests
pub mod Admin
