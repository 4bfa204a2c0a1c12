-- ===== src/Program.antt =====
-- The two programs from the established sessions on: the loop over the commands of a worker, the
-- master's `main` behind the enrollment, and the output file.
pub mod Worker
pub mod Master
pub mod Output
mod Tests
