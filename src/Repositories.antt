-- ===== src/Repositories.antt =====
-- app/repositories: the queries, as functions of the tables.
pub mod Access
pub use Access.*
