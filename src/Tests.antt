-- ===== src/Tests.antt =====
-- Concrete libraries and systems, and the theorems of the other modules at concrete inputs.
mod Requests
pub mod Systems
pub mod Fetching
pub mod Routing
pub mod Json
pub mod Events
pub mod Machines
mod Apps
mod Caller
mod Log
mod Jobs
mod Parameters
mod Server
