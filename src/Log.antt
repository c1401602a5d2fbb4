-- ===== src/Log.antt =====
-- src/db/log_format.h, log_writer.h, log_writer.cc, log_reader.h and log_reader.cc: the write-ahead
-- log. `Format`, `Writer` and `Reader` are the code; the other modules prove.
pub mod Format
pub mod Writer
pub mod Layout
pub mod Sent
pub mod Loop
pub mod Written
pub mod Reader
pub mod Pieces
pub mod Fields
pub mod Position
pub mod Physical
pub mod Cut
pub mod Rounds
pub mod Recovery
pub mod Survival
pub mod Durable
mod Tests
