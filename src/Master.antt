-- ===== src/Master.antt =====
-- src/meter_master.cpp.
pub mod Telegram
pub mod Readings
pub mod Identity
pub mod Json
pub mod Port
pub mod Loop
mod Tests
