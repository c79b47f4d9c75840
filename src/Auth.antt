-- ===== src/Auth.antt =====
-- src/modules/auth: API keys (`AuthService`) and the guard of the HTTP routes (`ApiKeyGuard`).
pub mod Cidr
pub mod Keys
pub mod Guard
