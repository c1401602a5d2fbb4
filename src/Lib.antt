-- ===== src/Lib.antt =====
-- mini-leveldb: an embedded key-value store. A write is a batch of operations, encoded as bytes
-- (include/mini-leveldb/write_batch.h), which is appended to a write-ahead log (src/db/log_*), then
-- applied to a skip list in memory (src/db/skiplist.h, src/db/memtable.h) under internal keys
-- (src/db/dbformat.h); full memory tables are flushed to sorted tables on disk (src/table), and after
-- a crash the log is read back and its batches are replayed.
--
-- The files and the code:
--   Prelude (Tests, Lists, Order, Word): lists, Boolean tests and machine words on the native
--     numbers, shared by all modules. A Slice or std::string is the list of its bytes, a byte a
--     number below 256; a w-bit operation keeps its wrap-around, `% 2 ^ w`.
--   Coding (Fixed, Varint): src/util/coding.h and src/util/coding.cc. An output buffer is a result,
--     an input slice is what is left of it.
--   Slice (Order): include/mini-leveldb/slice.h, an `int` of `compare` by its sign.
--   Status: include/mini-leveldb/status.h and src/util/status.cc.
--   WriteBatch (Shape, Replay): include/mini-leveldb/write_batch.h and src/db/write_batch.cc. The
--     handler's methods are functions on a state of any type.
--   Crc32c (Mask): src/util/crc32c.h and src/util/crc32c.cc; `Tables` is the function `table`, and
--     the word that `memcpy` fills is little endian.
--   Stdio: the part of C's stdio that the writers call, a buffered stream onto a device of limited
--     size. How much the buffer takes beyond what the device has room for is a parameter of the
--     stream; the writers ignore the result of `fflush`, as the code does. What a reader finds in the
--     file is `on_device`, the first bytes that the stream has taken.
--   Log: Format, Writer and Reader are src/db/log_format.h, src/db/log_writer.cc and
--     src/db/log_reader.cc, function by function. Layout says which bytes a record becomes;
--     Sent, Loop and Written are about the writer; Position, Fields, Physical, Cut, Pieces, Rounds and
--     Recovery are about the reader; Survival and Durable are about both.
--   Dbformat (Keys, Comparator): src/db/dbformat.h.
--   Arena (Ranges, Allocation, Requests): src/util/arena.h and src/util/arena.cc; addresses are
--     numbers, and what `new char[]` returns is a parameter.
--   Skiplist: src/db/skiplist.h. Nodes stand in a store, a pointer is a place in it; one writer, so
--     an atomic is a plain variable. Random is the generator, Chain and Search are about
--     FindGreaterOrEqual, Store, Splice, Prev, Insertion and Inserted about the stores of Insert,
--     Sequence is the abstract sorted sequence, and Keys, Refines and Contains say how the list
--     stands for it.
--   Memtable (Lookup, Newest, Get): src/db/memtable.h and src/db/memtable.cc, on the skip list; an
--     entry's bytes in the arena are the two views that the list holds, and the abstract table is
--     the list of its writes.
--   Table: Format is src/table/format.h and src/table/format.cc, Builder is
--     src/table/table_builder.cc and Reader is src/table/table.cc. Footers and Blocks are about the
--     format; Chunks, Stored, Writing, Adding and Finished are about the builder, whose file is a
--     stream of Stdio; Newest is about entries of a memory table among a table's, and Found and
--     Opened about the reader, whose file is the list of its bytes. Open takes as a parameter whether
--     `remove_prefix` past a view's end, which every footer leads to, comes back.
--   Block: src/table/block_builder.cc and src/table/block.cc with their headers; Builder and Reader
--     are the code, Layout and Image say which bytes entries become, Decode, Walk and Seek are about
--     the iterator, Keys about the order of the keys, Built and Damaged about blocks that were written
--     and about any bytes.
--   Filename (Numbers, Names, Listing): src/db/filename.h and src/db/filename.cc; `to_string` and
--     `strtoull` of the standard library are functions on decimal digits, `sort` is by insertion.
--   Db: src/db/db_impl.h and src/db/db_impl.cc. Memory is the memory table with its arena and
--     MemTableInserter, Files the state and the system's answers (whether a file opens, how much room
--     its device has and its stream's buffer takes, whether renaming, removing and closing succeed),
--     Calls has Write, FlushMemTable, Put, Delete and Get, and Applied and Updates are about them.
--   The Tests modules run the code on concrete inputs.
--
-- Loops: a loop over bytes is recursion on their list; `EncodeVarint` is recursion on
-- accessibility. The loops of Iterate, AddRecord, ReadRecord, ReadPhysicalRecord,
-- FindGreaterOrEqual and Block::Iterator::Seek run on fuel, and `none` says that it ran out: one more
-- than the bytes left for Iterate (a round takes a byte), two more than the record's length for
-- AddRecord (a round but the first writes a byte), two more than the bytes left for the reader (a
-- round takes a header or a block), the number of nodes and levels for FindGreaterOrEqual (a round
-- leaves a node or a level), the number of restart points and of bytes for Seek. The theorems on
-- these functions state a result, so the fuel is enough.
--
-- Not modelled: Open, Init and Recover of the database, and the hash. Memory allocation does not
-- fail. Where the code reads outside a buffer or cuts a view by more than its length, which
-- C++ leaves undefined, the model says `none` or states the case beside the definition.
pub mod Prelude
pub mod Block
pub mod Coding
pub mod Slice
pub mod Status
pub mod WriteBatch
pub mod Crc32c
pub mod Stdio
pub mod Log
pub mod Dbformat
pub mod Table
pub mod Filename
pub mod Arena
pub mod Skiplist
pub mod Memtable
pub mod Db
