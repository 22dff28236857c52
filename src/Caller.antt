-- ===== src/Caller.antt =====
-- src/fsmwebCaller.cxx, src/wget.cxx: the client of the web interface of a state machine, and the
-- encodings of the texts that it sends.
pub mod Encode
pub mod Decode
pub mod Client
pub mod Served
pub mod Wget
pub mod Fetched
pub mod Routed
