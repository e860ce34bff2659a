-- ===== src/Rtc.antt =====
-- The real-time clock: main/modules/rtc/ over main/board/i2c_port.cpp and i2c_drv.cpp.
pub mod I2c
pub mod Pcf8563
pub mod Device
mod Tests
