-- ===== src/Fsm.antt =====
-- src/fsm.cxx, include/fsm.hh, src/fsmmessage.cxx, include/fsmmessage.hh: the finite state machine
-- that each process runs, and the messages that drive it.
pub mod Message
pub mod Machine
pub mod Table
pub mod Command
pub mod Web
pub mod Routes
pub mod Dispatch
pub mod Requests
pub mod Serve
pub mod Reach
