-- ===== src/Lcd.antt =====
-- bsp/src/bsp_lcd_1621.c: the segment display with its CS1621 driver.
pub mod Screen
pub mod Bus
pub mod Tests
