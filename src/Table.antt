-- ===== src/Table.antt =====
-- The sorted tables of src/table.
pub mod Format
pub mod Builder
pub mod Reader
pub mod Chunks
pub mod Stored
pub mod Writing
pub mod Adding
pub mod Finished
pub mod Newest
pub mod Found
pub mod Opened
mod Runs
pub mod Footers
pub mod Blocks
mod Tests
