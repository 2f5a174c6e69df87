-- ===== src/Db.antt =====
-- src/db/db_api.cpp over SQLite, which is a parameter of the model.
mod Tables
mod Sqlite
mod Api
pub mod Memory
pub mod Keys
pub use Tables.*
pub use Sqlite.*
unfoldable pub use Api.*
