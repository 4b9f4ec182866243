-- ===== src/Tests.antt =====
-- Runs of the models on concrete inputs, and each theorem at an input that meets its hypotheses.
pub mod Distinct
pub mod TagRuns
pub mod StoreRuns
mod ScopeRuns
mod SinkRuns
mod OtherRuns
mod InterleaveRuns
mod LoopRuns
mod SinksRuns
mod RuntimeRuns
