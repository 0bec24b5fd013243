-- ===== src/DataRace.antt =====
-- The data race detector (datarace.cc, datarace.h): a shadow cell for each byte of memory holds
-- the last write and the reads since, as a packed word or as a record.
-- `Encoding` is the packed word, `Cell` the checks on one cell, `Detector` the handlers on the
-- shadow memory, for one byte, for 1 to 8 bytes, and for blocks of memory.
pub mod Cell
pub mod Detector
pub mod Encoding
pub mod RoundTrip
mod Tests
