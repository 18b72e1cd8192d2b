-- ===== src/Sim.antt =====
-- sim/: the deterministic simulator's sequential model of the store.
pub mod Lin
