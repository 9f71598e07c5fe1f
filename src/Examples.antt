-- ===== src/Examples.antt =====
-- The theorems at concrete inputs, and runs of the model.
mod JobRuns
mod RagRuns
mod RedisRuns
mod ChatRuns
mod UserRuns
mod AgentRuns
mod SearchRuns
mod HttpRuns
mod TokenRuns
mod FileRuns
