-- ===== src/Tasks.antt =====
-- planrace/taskgen_v2.py: commitments to private fixtures, their audit, and the life of a task.
pub mod Equality
pub mod Lifecycle
pub mod Commitment
