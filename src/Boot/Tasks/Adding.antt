-- ===== src/Boot/Tasks/Adding.antt =====
-- How the tasks of kernel/main.c add further tasks.
use ninjastorms.Scheduler.{Scheduler}
