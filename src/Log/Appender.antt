-- ===== src/Log/Appender.antt =====
-- `LogAppender` and its two subclasses in wb_server/log.h and wb_server/log.cc.
pub mod Files
use cpp_wb_server.Common.{
  ℕ, Bool, true, false, not, Option, none, some, Text, codes, ◌==◌, if◌then◌else◌,
}
use cpp_wb_server.Log.Level.{Level, debug, le}
use cpp_wb_server.Log.Event.{Event}
use cpp_wb_server.Log.Formatter.{Formatter, Printer, format}
use cpp_wb_server.Log.World.{
  FileStream, Target, stdout, to_file, Appender, console, written, World, System, Result, ok, ◌>>=◌,
  deref, put_appender, emit,
}

-- `LogAppender::set_formatter`.
unfoldable pub set_formatter : Appender → Option Formatter → Appender
set_formatter a none = record a { formatter = none; has_formatter = false }
set_formatter a (some f) = record a { formatter = some f; has_formatter = true }

-- `LogAppender::set_level`.
abbrev pub set_level : Appender → Level → Appender
set_level a l = record a { level = l }

-- `std::ofstream::close`: a stream that is not open fails.
unfoldable pub close_stream : FileStream → FileStream
close_stream s = if s.is_open then record s { is_open = false } else record s { fails = true }

-- `std::ofstream::open`: it fails on an open stream, and clears the failure bits when it succeeds.
unfoldable pub open_stream : System → FileStream → FileStream
open_stream sys s =
    if s.is_open
    then record s { fails = true }
    else if sys.can_open s.file_name
    then record s { is_open = true; fails = false }
    else record s { fails = true }

-- `FileLogAppender::reopen`, with what it returns.
unfoldable pub reopen : System → FileStream → FileStream × Bool
unfolding close_stream open_stream
reopen sys s =
    let s' = open_stream sys (if not s.fails then close_stream s else s) in (s', s'.is_open)

-- `FileLogAppender::FileLogAppender`.
unfoldable pub new_file : System → Text → Appender
unfolding reopen
new_file sys name =
    let s : FileStream = record {
      file_name = name;
      is_open = false;
      fails = false;
      last_time = 0;
    } in
    record {
      target = to_file (reopen sys s).0;
      level = debug;
      formatter = none;
      has_formatter = false;
    }

-- `FileLogAppender::log` up to the lock: a new second reopens the file.
unfoldable pub refresh : System → FileStream → FileStream
refresh sys s =
    if not (sys.now == s.last_time) then record (reopen sys s).0 { last_time = sys.now } else s

-- Whether the stream takes what the items print.
abbrev pub takes : System → FileStream → Bool
takes sys s = if s.fails then false else if s.is_open then sys.can_write s.file_name else false

abbrev pub printer : System → World → Printer
printer sys w = record { logger_name = λ l. (w.loggers l).name; print_time = sys.print_time }

-- The end of `FileLogAppender::log`: the text goes to the file, or `error` to the console.
unfoldable pub write_file : System → ℕ → FileStream → Text → World → World
write_file sys a s text w =
    if takes sys s
    then emit (put_appender w a (record (w.appenders a) { target = to_file s }))
        (written s.file_name text)
    else emit
        (put_appender w a (record (w.appenders a) { target = to_file (record s { fails = true }) }))
        (console (codes "error\n"))

-- `log` of the class of the appender at `a`.
unfoldable pub log_to : System → ℕ → Target → Level → Event → World → Result World
unfolding write_file refresh
log_to sys a stdout l e w = do
  f ← deref (w.appenders a).formatter
  ok (emit w (console (format (printer sys w) l e f)))
log_to sys a (to_file s) l e w = do
  f ← deref (w.appenders a).formatter
  ok (write_file sys a (refresh sys s) (format (printer sys w) l e f) w)

-- `LogAppender::log`.
unfoldable pub log : System → ℕ → Level → Event → World → Result World
unfolding log_to
log sys a l e w =
    if le (w.appenders a).level l then log_to sys a (w.appenders a).target l e w else ok w
