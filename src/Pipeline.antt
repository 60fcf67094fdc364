-- ===== src/Pipeline.antt =====
-- src/pipeline.rs: `BenchmarkPipeline::execute`. Seed has the seed of the verifiers, World what a run
-- does to the machine, Phases the parts of `execute` in their order, Run the whole.
pub mod Seed
pub mod World
pub mod Phases
pub mod Judge
pub mod Account
pub mod Run
