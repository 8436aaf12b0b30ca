-- ===== src/Log/Event.antt =====
-- `LogEvent` of wb_server/log.h and wb_server/log.cc.
use cpp_wb_server.Common.{ℕ, [], ◌++◌, Option, none, some, Text, ltb, length, if◌then◌else◌}
use cpp_wb_server.Log.Level.{Level}

-- The members; `logger` is an address, and `m_line` and `m_thread` hold the bits of an `int32_t`.
pub record Event : Type 0 where
  pub logger : ℕ
  pub level : Level
  pub file : Text
  pub line : ℕ
  pub elapse : ℕ
  pub thread : ℕ
  pub fiber_id : ℕ
  pub time : ℕ
  pub thread_name : Text
  pub content : Text

-- `get_ss() << s`.
abbrev pub write : Event → Text → Event
write e s = record e { content = e.content ++ s }

-- What `vsprintf` answers: -1, or the text that it has stored, without its final 0.
pub data Printed : Type 0 where
  refused : Printed
  stored : Text → Printed

-- `char buf[64]`.
abbrev pub buf_size : ℕ
buf_size = 64

-- `LogEvent::format`; `none` is the write behind the end of `buf`.
unfoldable pub format : Event → Printed → Option Event
format e refused = some e
format e (stored s) = if ltb (length s) buf_size then some (write e s) else none

-- What the macros of wb_server/log.h take from the place of a call: `__FILE__`, `__LINE__`, and the
-- thread, the fiber, the time and the thread's name.
pub record Site : Type 0 where
  pub file : Text
  pub line : ℕ
  pub thread : ℕ
  pub fiber_id : ℕ
  pub time : ℕ
  pub thread_name : Text

-- `LogEvent::LogEvent` as `YGJ_LOG_LEVEL` calls it.
abbrev pub new : Site → ℕ → Level → Event
new s logger level = record {
  logger = logger;
  level = level;
  file = s.file;
  line = s.line;
  elapse = 0;
  thread = s.thread;
  fiber_id = s.fiber_id;
  time = s.time;
  thread_name = s.thread_name;
  content = [];
}
