-- ===== src/Tests.antt =====
-- Concrete runs at which the theorems' hypotheses hold.
mod Fixtures
mod Files
mod Modules
mod Resting
mod Retries
mod Lagging
mod Stacks
mod Executions
mod Jobs
mod Configuration
mod Agents
mod Systems
mod Boot
mod Copies
mod Waking
mod Lives
