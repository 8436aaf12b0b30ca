-- ===== src/Log/Manager.antt =====
-- `LoggerManager` of wb_server/log.h and wb_server/log.cc, the one instance that `LoggerMgr` keeps.
pub mod Invariant
pub mod Lookup
pub mod Reachable
pub mod Operations
use cpp_wb_server.Common.{
  ℕ, suc, List, [], ◌∷◌, Option, none, some, Text, codes, eq_text, update, if◌then◌else◌,
}
use cpp_wb_server.Log.World.{Appender, Logger, World, new_logger, new_stdout}
use cpp_wb_server.Log.Logger

-- `m_loggers.find(name)`.
unfoldable pub find_name : List (Text × ℕ) → Text → Option ℕ
find_name [] name = none
find_name ((n, l) ∷ ns) name = if eq_text n name then some l else find_name ns name

-- `new Logger(name)`: the object takes a fresh address.
unfoldable pub alloc_logger : Logger → World → World
alloc_logger x w = record w {
  loggers = update w.loggers w.next_logger x;
  next_logger = suc w.next_logger;
}

-- `new` of an appender.
unfoldable pub alloc_appender : Appender → World → World
alloc_appender x w = record w {
  appenders = update w.appenders w.next_appender x;
  next_appender = suc w.next_appender;
}

abbrev root_name : Text
root_name = codes "root"

-- The two objects that `LoggerManager::LoggerManager` makes, and the entry of the root.
unfoldable pub before_boot : World
before_boot = record {
  loggers = λ _. new_logger root_name;
  next_logger = 1;
  appenders = λ _. new_stdout;
  next_appender = 1;
  names = (root_name, 0) ∷ [];
  root = 0;
  output = [];
}

-- `LoggerManager::LoggerManager`; `init` does nothing.
unfoldable pub boot : World
unfolding Logger.add_appender before_boot
boot = Logger.add_appender 0 0 before_boot

-- `LoggerManager::get_logger`.
unfoldable pub get_logger : Text → World → ℕ × World
unfolding find_name alloc_logger
get_logger name w = elim (find_name w.names name) [
  | some l ↦ (l, w)
  | none ↦
      let w' = alloc_logger (record (new_logger name) { root = some w.root }) w in
      (w.next_logger, record w' { names = (name, w.next_logger) ∷ w.names })
]
