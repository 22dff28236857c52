-- ===== src/Source.antt =====
-- src/datasource.cxx, src/datasocket.cxx, src/monitorProcessor.cxx: where the buffers come from,
-- and a processor that passes them on.
pub mod Datasource
pub mod Datasocket
pub mod Publish
pub mod Handover
pub mod Monitor
pub mod Monitored
