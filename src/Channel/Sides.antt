-- ===== src/Channel/Sides.antt =====
-- The two sides: src/master_npb.c sends with DIRECTION_CENTRAL_TO_WORKER and expects the other
-- direction, src/worker_npb.c the other way round.
pub mod Central
pub mod Worker
