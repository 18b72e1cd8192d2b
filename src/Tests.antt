-- ===== src/Tests.antt =====
-- Runs of the definitions at concrete inputs, and the theorems applied to them.
mod Data
mod Votes
mod Storage
mod Disk
mod Overwritten
mod Unsynced
mod Nodes
mod Leaders
mod Serving
