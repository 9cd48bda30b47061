-- ===== src/Boot/Tasks/Tests.antt =====
-- A task in user mode, on the scheduler as it boots.
use ninjastorms.Device.{Hardware}

abbrev quiet : Hardware
quiet h w a = 0
