-- ===== src/Task.antt =====
-- The threads of src/task/task.cpp.
pub mod Scheduler
