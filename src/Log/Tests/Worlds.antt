-- ===== src/Log/Tests/Worlds.antt =====
-- The theorems on loggers, appenders and the listener of wb_server/log.cc, at inputs.
use cpp_wb_server.Common.{
  concat_map, refl, ◌⊎◌, ◌≢◌, ◌<◌, All, ℕ, ◌≡◌, true, false, inr, [], ◌∷◌, ◌++◌, some, codes, arith,
}
use cpp_wb_server.Log.Level.{warn, info, debug, unknow}
use cpp_wb_server.Log.Logger.Delivery.{IsConsole, log_prints, append_output, console_line, reached}
use cpp_wb_server.Log.Formatter.{Formatter, new, default_pattern}
use cpp_wb_server.Log.World.{FileStream, to_file, Appender, World, ok, console}
use cpp_wb_server.Log.Appender
use cpp_wb_server.Log.Appender.{reopen}
use cpp_wb_server.Log.Appender.Files.{
  IsSettled, HasBroken, reopen_settles, reopen_broken, log_broken,
}
use cpp_wb_server.Log.Logger
use cpp_wb_server.Log.Logger.Propagation.{set_formatter-inherited, inherited, contains}
use cpp_wb_server.Log.Manager.{boot, before_boot, get_logger}
use cpp_wb_server.Log.Manager.Invariant.{IsValid}
use cpp_wb_server.Log.Manager.Operations.{boot-IsValid}
use cpp_wb_server.Log.Manager.Lookup.{get_logger-named}
use cpp_wb_server.Log.Manager.Reachable.{
  Reachable, at_boot, after, get_logger_step, Reachable-IsValid, log-total,
}
use cpp_wb_server.Log.Define.{AppenderDefine, LogDefine, eq_define, find}
use cpp_wb_server.Log.Define.Laws.{eq_define-ignores}
use cpp_wb_server.Log.Listener.{on_change}
use cpp_wb_server.Log.Listener.Names.{Has}
use cpp_wb_server.Log.Listener.Updates.{applies, AsDefined}
use cpp_wb_server.Log.Listener.Final.{Cleared, on_change-applies}
use cpp_wb_server.Log.Tests.{the_site, the_event, the_system}

abbrev new_stream : FileStream
new_stream = record { file_name = codes "log.txt"; is_open = false; fails = false; last_time = 0 }

abbrev broken_stream : FileStream
broken_stream = record { file_name = codes "log.txt"; is_open = true; fails = true; last_time = 5 }

reopen_settles_example :
    ((reopen the_system new_stream).1 ≡ true)
    × ((reopen the_system new_stream).0.is_open ≡ true)
    × IsSettled (reopen the_system new_stream).0
    × ((reopen the_system new_stream).0.file_name ≡ codes "log.txt")
reopen_settles_example = reopen_settles the_system new_stream (inr (refl, refl))

reopen_broken_example : reopen the_system broken_stream ≡ (broken_stream, true)
reopen_broken_example = reopen_broken the_system broken_stream (refl, refl)

abbrev broken_appender : Appender
broken_appender = record {
  target = to_file broken_stream;
  level = debug;
  formatter = some (new []);
  has_formatter = true;
}

abbrev broken_world : World
broken_world = record boot { appenders = λ a. broken_appender }

log_broken_example :
    (w' : World) × (Appender.log the_system 0 warn the_event broken_world ≡ ok w')
    × (w'.output ≡ broken_world.output ++ console (codes "error\n") ∷ [])
    × HasBroken w' 0
log_broken_example =
    log_broken the_system 0 warn the_event broken_world (new []) (broken_stream, refl, (refl, refl))
      refl refl

abbrev boot_line : ℕ → Formatter
boot_line a = new default_pattern

boot-IsConsole : All (IsConsole boot boot_line) (reached boot 0 warn)
unfolding boot before_boot Logger.add_appender Logger.adopt
boot-IsConsole = ((refl, refl), tt)

boot-below : 0 < boot.next_logger
unfolding boot Logger.add_appender
boot-below = omega arith

log_prints_example :
    Logger.log 2 the_system 0 warn the_event boot
    ≡ ok (
        append_output boot (
          concat_map (console_line the_system boot boot_line warn the_event) (reached boot 0 warn)))
log_prints_example =
    log_prints the_system boot boot_line warn the_event 0 boot-IsValid boot-below boot-IsConsole

set_formatter-inherited_example :
    (((Logger.set_formatter 0 (some (new [])) boot).loggers 0).formatter ≡ some (new []))
    × ((Logger.set_formatter 0 (some (new [])) boot).appenders 0
        ≡ inherited (some (new [])) (contains (boot.loggers 0).appenders 0) (boot.appenders 0))
set_formatter-inherited_example = set_formatter-inherited 0 (some (new [])) boot 0

get_logger-named_example :
    ((get_logger (codes "a") boot).0 < (get_logger (codes "a") boot).1.next_logger)
    × (((get_logger (codes "a") boot).1.loggers (get_logger (codes "a") boot).0).name ≡ codes "a")
    × (get_logger (codes "a") (get_logger (codes "a") boot).1 ≡ get_logger (codes "a") boot)
    × ((get_logger (codes "a") boot).0 ≢ (get_logger (codes "b") (get_logger (codes "a") boot).1).0)
get_logger-named_example =
    get_logger-named (codes "a") (codes "b") boot boot-IsValid (λ e. absurd (ground (arith, e)))

Reachable-IsValid_example : IsValid (get_logger (codes "a") boot).1
Reachable-IsValid_example =
    Reachable-IsValid (get_logger (codes "a") boot).1
      (after at_boot (get_logger_step (codes "a") boot))

log-total_example :
    (w' : World) × (Logger.log 2 the_system 0 warn the_event boot ≡ ok w')
    × (w'.loggers ≡ boot.loggers)
    × Reachable w'
log-total_example = log-total the_system 0 warn the_event boot at_boot boot-below

abbrev to_console : AppenderDefine
to_console = record { type = 2; level = unknow; formatter = []; file = [] }

abbrev define_a : LogDefine
define_a = record { name = codes "a"; level = info; formatter = []; appenders = to_console ∷ [] }

abbrev define_b : LogDefine
define_b = record { name = codes "b"; level = warn; formatter = codes "%m%n"; appenders = [] }

eq_define-ignores_example : eq_define define_a (record define_a { appenders = [] }) ≡ true
eq_define-ignores_example = eq_define-ignores define_a []

on_change-applies_example :
    (w' : World) × (on_change the_system the_site (define_b ∷ []) (define_a ∷ []) boot ≡ ok w')
    × IsValid w'
    × All
        (λ (d : LogDefine). (applies (define_b ∷ []) d ≡ false) ⊎ Has d.name (AsDefined d) w')
        (define_a ∷ [])
    × All
        (λ (d : LogDefine).
          ((x : LogDefine) × (find d (define_a ∷ []) ≡ some x)) ⊎ Has d.name Cleared w')
        (define_b ∷ [])
on_change-applies_example =
    on_change-applies the_system the_site (define_b ∷ []) (define_a ∷ []) boot ((inr refl, tt), tt)
      (tt, tt) (tt, tt) boot-IsValid
