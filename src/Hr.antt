-- ===== src/Hr.antt =====
-- bsp/src/bsp_hr.c: the serial line to the host that reads the history.
pub mod Frame
pub mod Process
pub mod Session
pub mod Tests
