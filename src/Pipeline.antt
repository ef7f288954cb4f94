-- ===== src/Pipeline.antt =====
-- The handlers of pipeline/ between the codec and the database.
pub mod Adapter
pub mod Table
pub mod Transaction
pub mod Database
pub mod Handler
pub mod Config
pub mod Monitors
pub mod Async
pub mod Bootstrap
