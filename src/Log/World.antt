-- ===== src/Log/World.antt =====
-- The objects of wb_server/log.h and wb_server/log.cc that are shared through pointers: appenders,
-- loggers and the logger manager, with what they have written.
use cpp_wb_server.Common.{
  map, ℕ, Bool, false, List, [], ◌∷◌, ◌++◌, Option, none, some, Text, update,
}
use cpp_wb_server.Log.Level.{Level, debug}
use cpp_wb_server.Log.Formatter.{Formatter, new, default_pattern}

-- `m_file_name`, the open state and the failure bits of `m_file_stream`, and `m_last_time`.
pub record FileStream : Type 0 where
  pub file_name : Text
  pub is_open : Bool
  pub fails : Bool
  pub last_time : ℕ

-- `StdoutLogAppender` and `FileLogAppender`.
pub data Target : Type 0 where
  stdout : Target
  to_file : FileStream → Target

-- `LogAppender`; `none` is a null formatter.
pub record Appender : Type 0 where
  pub target : Target
  pub level : Level
  pub formatter : Option Formatter
  pub has_formatter : Bool

-- `Logger`; `appenders` and `root` hold addresses.
pub record Logger : Type 0 where
  pub name : Text
  pub level : Level
  pub appenders : List ℕ
  pub formatter : Option Formatter
  pub root : Option ℕ

-- A text that went to `std::cout` or to the file of that name.
pub data Output : Type 0 where
  console : Text → Output
  written : Text → Text → Output

-- `LoggerManager` with everything that hangs on it.
pub record World : Type 0 where
  pub loggers : ℕ → Logger
  pub next_logger : ℕ
  pub appenders : ℕ → Appender
  pub next_appender : ℕ
  pub names : List (Text × ℕ)
  pub root : ℕ
  pub output : List Output

-- The answers of the system while one call runs: `time(0)`, whether a file opens for appending,
-- whether what is written to an open file arrives, and `strftime` of a local time.
pub record System : Type 0 where
  pub now : ℕ
  pub can_open : Text → Bool
  pub can_write : Text → Bool
  pub print_time : Text → ℕ → Text

-- `fault` is a call through a null pointer.
pub data Result {ℓ} (A : Type ℓ) : Type ℓ where
  ok : A → Result A
  fault : Result A
  no_fuel : Result A

infixl 5 ◌>>=◌
abbrev pub ◌>>=◌ {ℓ κ} : {A : Type ℓ} {B : Type κ} → Result A → (A → Result B) → Result B
ok a >>= f = f a
fault >>= f = fault
no_fuel >>= f = no_fuel

abbrev pub deref {ℓ} : {A : Type ℓ} → Option A → Result A
deref none = fault
deref (some a) = ok a

abbrev pub put_logger : World → ℕ → Logger → World
put_logger w l x = record w { loggers = update w.loggers l x }

abbrev pub put_appender : World → ℕ → Appender → World
put_appender w a x = record w { appenders = update w.appenders a x }

abbrev pub emit : World → Output → World
emit w o = record w { output = w.output ++ o ∷ [] }

-- What a new formatter has printed.
abbrev pub emit_all : World → List Text → World
emit_all w ts = record w { output = w.output ++ map console ts }

-- `Logger::Logger`.
abbrev pub new_logger : Text → Logger
new_logger name = record {
  name = name;
  level = debug;
  appenders = [];
  formatter = some (new default_pattern);
  root = none;
}

-- `new StdoutLogAppender`.
abbrev pub new_stdout : Appender
new_stdout = record { target = stdout; level = debug; formatter = none; has_formatter = false }
