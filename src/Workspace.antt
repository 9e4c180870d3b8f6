-- ===== src/Workspace.antt =====
-- src/workspace.c: the directories of schedules and actions, the files in them, and the meta information.
pub mod Names
pub mod Tree
pub mod Queue
pub mod Cleaning
pub mod Delivery
pub mod Init
pub mod Results
pub mod Meta
