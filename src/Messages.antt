-- ===== src/Messages.antt =====
-- src/modules/message: delivery states, the retry of failed sends, and bulk batches.
pub mod Status
pub mod Retry
pub mod Bulk
pub mod Address
pub mod Sending
