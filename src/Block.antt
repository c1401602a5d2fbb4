-- ===== src/Block.antt =====
-- src/table/block_builder.h, src/table/block_builder.cc, src/table/block.h and src/table/block.cc: a
-- block of sorted entries with shared prefixes and restart points.
pub mod Builder
pub mod Reader
pub mod Layout
pub mod Image
pub mod Decode
pub mod Walk
pub mod Keys
pub mod Seek
pub mod Built
pub mod Damaged
mod Tests
