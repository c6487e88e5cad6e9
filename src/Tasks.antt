-- ===== src/Tasks.antt =====
-- Scheduled prompts: services/scheduler.py, services/task_service.py, services/task_log_service.py
-- and domain/models/task.py.
pub mod Schedule
pub mod Scheduler
pub mod Logs
pub mod Service
pub mod Tests
