-- ===== src/Log/Logger/Levels.antt =====
-- The functions of `Logger` in wb_server/log.cc that are named for a level.
use cpp_wb_server.Common.{ℕ}
use cpp_wb_server.Log.Level.{Level}
use cpp_wb_server.Log.Event.{Event}
use cpp_wb_server.Log.World.{System, Result, World}
use cpp_wb_server.Log.Logger.{log}

module _ (fuel : ℕ) (sys : System) (l : ℕ) (e : Event) where
  abbrev pub debug : World → Result World
  debug = log fuel sys l Level.debug e

  abbrev pub info : World → Result World
  info = log fuel sys l Level.info e

  abbrev pub warn : World → Result World
  warn = log fuel sys l Level.warn e

  abbrev pub error : World → Result World
  error = log fuel sys l Level.error e

  abbrev pub fatal : World → Result World
  fatal = log fuel sys l Level.fatal e
