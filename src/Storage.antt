-- ===== src/Storage.antt =====
-- storage/: the implementations of the core's durable log.
pub mod Mem
pub mod Disk
