-- ===== src/Omega.antt =====
-- src/modules/omega: the accounts of the hosted panel, their sessions and their guard.
pub mod Users
pub mod Admin
pub mod Usage
pub mod Guard
