-- ===== src/Worker.antt =====
-- src/worker: the task queue in the database and the process that works through it.
pub mod Queue
pub mod Runner
