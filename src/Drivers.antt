-- ===== src/Drivers.antt =====
-- kernel/drivers: the drivers of the board EV3 that stand on its pins and its serial peripheral interface.
pub mod Led
pub mod Button
pub mod Motor
pub mod Spi
pub mod Adc
pub mod Sensor
pub mod Timer
pub mod Ports
pub mod Serial
pub mod Calls
pub mod Levels
mod Tests
