-- ===== src/Apps.antt =====
-- The applications that are built on the library: an event builder, a server of data sources, and
-- the base class of configured applications.
pub mod Database
pub mod Process
pub mod Application
pub mod Parameters
pub mod Server
pub mod Dummy
pub mod Mains
pub mod Published
pub mod Startup
pub mod Service
pub mod Statistics
pub mod Builder
pub mod DummyBuilder
pub mod Wiring
