-- ===== src/Data.antt =====
-- src/data.c: the setters, the containers, the lookups and the validity checks of the data model.
pub mod Scalar
pub mod DateTime
pub mod Containers
pub mod Agent
pub mod Supp
pub mod Event
pub mod Task
pub mod Schedule
pub mod Action
pub mod Validity
pub mod Results
pub mod Paths
