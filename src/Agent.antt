-- ===== src/Agent.antt =====
-- deepCab/agent: the tool-calling agent and its self-improve loop.
pub mod Json
pub mod Event
pub mod Gen
pub mod Budget
pub mod Tools
pub mod Site
pub mod Resume
pub mod Executor
pub mod Planner
pub mod Improve
pub mod Memory
pub mod Toolbox
