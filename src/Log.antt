-- ===== src/Log.antt =====
-- wb_server/log.h and wb_server/log.cc.
pub mod Level
pub mod Event
pub mod Pattern
pub mod Formatter
pub mod World
pub mod Appender
pub mod Logger
pub mod Manager
pub mod Export
pub mod Define
pub mod Listener
mod Tests
