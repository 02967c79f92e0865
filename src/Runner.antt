-- ===== src/Runner.antt =====
-- scripts/runners: the parallel test runner. Its children are the flags of a run, the order of the
-- files, the queue that the slots share, the recovery of the relayers and the phases of a run.
pub mod Queue
pub mod Order
pub mod OrderLaws
pub mod Flags
pub mod Options
pub mod FlagsLaws
pub mod Words
pub mod Recovery
pub mod Phases
pub mod PhasesLaws
pub mod Bootstrap
