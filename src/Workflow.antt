-- ===== src/Workflow.antt =====
-- agents/coordinator/workflow.py: the coordinator's state machine over the agents.
pub mod Action
pub mod Steps
pub mod Run
pub mod Create
pub mod Keeps
pub mod Trail
pub mod Opening
pub mod Safety
pub mod Completion
