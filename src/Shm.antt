-- ===== src/Shm.antt =====
-- src/shmdriver.cxx, include/shmdriver.hh: the event builder. Data sources store one file per
-- event and source in a memory directory; the driver pulls the files, collects them by event id,
-- and hands each complete event to its processors.
pub mod Name
pub mod Posix
pub mod Files
pub mod Transfer
pub mod Driver
pub mod Scan
pub mod Build
pub mod Delivery
pub mod Clean
pub mod Keys
pub mod Live
pub mod Order
pub mod Flag
pub mod Threads
pub mod Batch
