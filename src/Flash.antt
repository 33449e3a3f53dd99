-- ===== src/Flash.antt =====
-- bsp/src/bsp_flash.c: the event records and the configuration page in the on-chip flash.
pub mod Hal
pub mod Layout
pub mod Driver
pub mod Records
pub mod Query
pub mod Config
pub mod Tests
