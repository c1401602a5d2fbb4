-- ===== src/Db.antt =====
-- src/db/db_impl.h and src/db/db_impl.cc: the database behind `Put`, `Delete` and `Get`.
pub mod Memory
pub mod Files
pub mod Calls
pub mod Applied
pub mod Updates
mod Tests
