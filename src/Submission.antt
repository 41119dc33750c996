-- ===== src/Submission.antt =====
-- The node that submits applications: src/lib/scheduling/SubmissionNode.cpp and the database of applications that it
-- keeps, src/lib/db/TaskBagAppDatabase.cpp.
pub mod Tables
pub mod Database
pub mod Maps
pub mod Node
pub mod Monitor
pub mod Counts
pub mod Keys
pub mod Search
pub mod Lifecycle
pub mod Refinement
pub mod Runs
pub mod Timeouts
