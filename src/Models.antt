-- ===== src/Models.antt =====
-- The tables of app/models: one record for a row of each, and the state of the database.
mod Users
mod Channels
mod Messages
mod Notices
mod Database
pub use Users.*
pub use Channels.*
pub use Messages.*
pub use Notices.*
pub use Database.*
