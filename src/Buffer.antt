-- ===== src/Buffer.antt =====
-- include/buffer.hh: the data block that the processes exchange. The block's memory is a list of
-- bytes; header fields are stored in the byte order of the machine, taken as little-endian.
-- A payload that does not fit its block is a fault, `none`. A store to a header field beyond the
-- block is dropped; the theorems suppose that the block has room for its header.
pub mod Layout
pub mod Compress
mod Memory
unfoldable pub use Memory.*
