-- ===== src/Tests.antt =====
-- Concrete inputs at which the theorems apply.
mod Network
mod Keys
mod Panel
mod Plugins
mod Loader
mod Translator
mod Office
mod Sending
mod Lifecycle
mod Outbox
mod Inbox
