-- ===== src/Config.antt =====
-- wb_server/config.h and wb_server/config.cc: a variable, the registry, and loading from YAML.
pub mod Var
pub mod Cast
pub mod Registry
pub mod Load
pub mod Logs
mod Tests
