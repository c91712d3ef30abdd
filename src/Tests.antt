-- ===== src/Tests.antt =====
-- Runs of the code at concrete inputs: structures, allocators, paths, the scheduler, formats and clocks.
pub mod StructuresRuns
pub mod AllocatorRuns
pub mod VirtualRuns
pub mod SchedulerRuns
pub mod PathRuns
pub mod VfsRuns
pub mod SignalsRuns
pub mod PipesRuns
pub mod ClockRuns
pub mod Ext2Runs
pub mod SliceRuns
pub mod BreakRuns
