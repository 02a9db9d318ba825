-- ===== src/Peripherals.antt =====
-- The peripherals of the platform, one module for each.
pub mod SysCtrl
pub mod Sram
pub mod Wdt
pub mod Uart
pub mod Gpio
pub mod Timer
