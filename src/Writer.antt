-- ===== src/Writer.antt =====
-- src/basicwriter.cc, include/basicwriter.hh: the processor that writes complete events to files.
pub mod File
pub mod Record
pub mod RunHeader
