-- ===== src/Log/Logger.antt =====
-- `Logger` and `LogEventWrap` of wb_server/log.h and wb_server/log.cc. A call takes the address of
-- its object.
pub mod Frame
pub mod Propagation
pub mod Delivery
pub mod Total
pub mod Levels
use cpp_wb_server.Common.{
  ℕ, zero, suc, not, List, [], ◌∷◌, ◌++◌, Option, none, some, Text, codes, ◌==◌, if◌then◌else◌,
}
use cpp_wb_server.Log.Level.{Level, le}
use cpp_wb_server.Log.Event.{Event}
use cpp_wb_server.Log.Formatter.{Formatter, new}
use cpp_wb_server.Log.World.{
  emit_all, Appender, console, World, System, Result, ok, no_fuel, ◌>>=◌, put_appender, put_logger,
  emit,
}
use cpp_wb_server.Log.Appender

-- The formatter that an appender with none takes over.
unfoldable pub adopt : Appender → Option Formatter → Appender
adopt a f = elim a.formatter [ none ↦ record a { formatter = f } | some _ ↦ a ]

-- `Logger::add_appender`.
unfoldable pub add_appender : ℕ → ℕ → World → World
unfolding adopt
add_appender l a w =
    let x = w.loggers l in
    put_logger (put_appender w a (adopt (w.appenders a) x.formatter)) l
      (record x { appenders = x.appenders ++ a ∷ [] })

-- `erase` of the first that is equal.
unfoldable pub erase_first : ℕ → List ℕ → List ℕ
erase_first a [] = []
erase_first a (b ∷ bs) = if b == a then bs else b ∷ erase_first a bs

-- `Logger::del_appender`.
unfoldable pub del_appender : ℕ → ℕ → World → World
unfolding erase_first
del_appender l a w =
    let x = w.loggers l in put_logger w l (record x { appenders = erase_first a x.appenders })

-- `Logger::clear_appender`.
unfoldable pub clear_appender : ℕ → World → World
clear_appender l w = put_logger w l (record (w.loggers l) { appenders = [] })

-- `Logger::set_level`.
unfoldable pub set_level : ℕ → Level → World → World
set_level l v w = put_logger w l (record (w.loggers l) { level = v })

-- The body of the loop of `Logger::set_formatter`.
unfoldable pub inherit_formatter : Option Formatter → Appender → Appender
inherit_formatter f a = if not a.has_formatter then record a { formatter = f } else a

unfoldable pub inherit_all : Option Formatter → List ℕ → World → World
inherit_all f [] w = w
inherit_all f (a ∷ as') w =
    inherit_all f as' (put_appender w a (inherit_formatter f (w.appenders a)))

-- `Logger::set_formatter` of a pointer.
unfoldable pub set_formatter : ℕ → Option Formatter → World → World
unfolding inherit_all inherit_formatter
set_formatter l f w =
    let x = w.loggers l in inherit_all f x.appenders (put_logger w l (record x { formatter = f }))

abbrev pub invalid_text : Text → Text → Text
invalid_text name val =
    codes "Logger setFormatter name="
    ++ (name ++ (codes " value=" ++ (val ++ codes " invalid formatter\n")))

-- `Logger::set_formatter` of a pattern.
unfoldable pub set_pattern : ℕ → Text → World → World
unfolding set_formatter
set_pattern l val w =
    let f = new val in
    let w' = emit_all w f.reports in
    if f.is_error
    then emit w' (console (invalid_text (w.loggers l).name val))
    else set_formatter l (some f) w'

-- The loop of `Logger::log` over the appenders.
unfoldable pub log_all : System → List ℕ → Level → Event → World → Result World
log_all sys [] v e w = ok w
log_all sys (a ∷ as') v e w = do w' ← Appender.log sys a v e w; log_all sys as' v e w'

-- `Logger::log`; the fuel counts the loggers that `m_root` leads through.
unfoldable pub log : ℕ → System → ℕ → Level → Event → World → Result World
unfolding log_all
log zero sys l v e w = no_fuel
log (suc fuel) sys l v e w =
    let up = λ (r : ℕ). log fuel sys r v e w in
    if le (w.loggers l).level v
    then elim (w.loggers l).appenders [
      | [] ↦ elim (w.loggers l).root [ none ↦ ok w | some r ↦ up r ]
      | a ∷ as' ↦ log_all sys (a ∷ as') v e w
    ]
    else ok w

-- `~LogEventWrap`.
unfoldable pub wrap_end : ℕ → System → Event → World → Result World
unfolding log
wrap_end fuel sys e w = log fuel sys e.logger e.level e w

-- The macro `YGJ_LOG_LEVEL` around an event that was written to.
unfoldable pub log_macro : ℕ → System → Event → World → Result World
unfolding wrap_end
log_macro fuel sys e w =
    if le (w.loggers e.logger).level e.level then wrap_end fuel sys e w else ok w
