-- ===== src/Task/Examples.antt =====
-- Runs of the task methods of task/task.go.
