-- ===== src/Presence.antt =====
-- app/presence: the process-local state of connections and of typing.
pub mod Manager
pub mod Typing
pub mod Visibility
pub mod Service
