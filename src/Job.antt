-- ===== src/Job.antt =====
-- src/fsmjob.cxx, include/fsmjob.hh: the job control. It keeps a table of the processes that it
-- started on its host, from a configuration, and is driven by a state machine and by web commands.
pub mod Status
pub mod Table
pub mod Control
pub mod Web
pub mod Kill
pub mod Tailer
pub mod Machine
pub mod Always
