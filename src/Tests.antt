-- ===== src/Tests.antt =====
-- Runs of the theorems on concrete inputs.
mod Promotions
mod Flows
mod Agents
mod Services
mod Requests
mod Histories
mod Trainings
mod Workers
mod Searches
mod Toolboxes
mod Benches
