-- ===== src/Log/Export.antt =====
-- The `to_yaml_string` functions of wb_server/log.cc, of the appenders, the loggers and the manager.
pub mod Appenders
pub mod Reading
pub mod Reload
use cpp_wb_server.Common.{ℕ, List, [], ◌∷◌, Option, none, some, Text, codes, if◌then◌else◌}
use cpp_wb_server.Common.Sets.{set_insert}
use mathlib.Core.List.{foldl}
use cpp_wb_server.Yaml.{Outcome, gave, ◌>>=◌, Yaml, Builder}
use cpp_wb_server.Log.Formatter.{Formatter}
use cpp_wb_server.Log.World.{Target, stdout, to_file, Appender, Logger, World}
use cpp_wb_server.Log.Define.{lt_text}
use cpp_wb_server.Log.Define.Print.{put_level, push_appender}

-- `get_pattern()` of a formatter that is not null.
abbrev pub pattern_of : Option Formatter → Option Text
pattern_of none = none
pattern_of (some f) = some f.pattern

-- `m_has_formatter && m_formatter`.
abbrev pub own_pattern : Appender → Option Text
own_pattern a = if a.has_formatter then pattern_of a.formatter else none

-- `m_loggers` in the order of its keys.
unfoldable pub in_order : List (Text × ℕ) → List (Text × ℕ)
in_order names = foldl (set_insert (λ (d e : Text × ℕ). lt_text d.0 e.0)) [] names

module _ (y : Yaml) (b : Builder y) where
  -- `node["formatter"]`, if there is a formatter to name.
  unfoldable pub put_pattern : Option Text → y.Node → y.Node
  put_pattern none n = n
  put_pattern (some t) n = b.put n (codes "formatter") (b.text t)

  -- `node["type"]`, and `node["file"]` of a file appender.
  unfoldable pub target_node : Target → y.Node
  target_node stdout = b.put b.null (codes "type") (b.text (codes "StdoutLogAppender"))
  target_node (to_file f) =
      b.put (b.put b.null (codes "type") (b.text (codes "FileLogAppender"))) (codes "file")
        (b.text f.file_name)

  unfoldable pub appender_node : Appender → y.Node
  unfolding put_pattern target_node put_level
  appender_node a = put_pattern (own_pattern a) (put_level y b a.level (target_node a.target))

  -- `StdoutLogAppender::to_yaml_string` and `FileLogAppender::to_yaml_string`.
  unfoldable pub appender_to_yaml_string : Appender → Text
  unfolding appender_node
  appender_to_yaml_string a = y.show (appender_node a)

  -- The loop over `m_appenders`.
  unfoldable pub push_appenders : World → List ℕ → y.Node → Outcome y.Node
  unfolding appender_to_yaml_string push_appender
  push_appenders w [] n = gave n
  push_appenders w (a ∷ as') n = do
    m ← y.load (appender_to_yaml_string (w.appenders a))
    n' ← push_appender y b n m
    push_appenders w as' n'

  unfoldable pub logger_node : World → Logger → Outcome y.Node
  unfolding push_appenders put_pattern put_level
  logger_node w x = push_appenders w x.appenders (
      put_pattern (pattern_of x.formatter)
        (put_level y b x.level (b.put b.null (codes "name") (b.text x.name))))

  -- `Logger::to_yaml_string`.
  unfoldable pub logger_to_yaml_string : World → Logger → Outcome Text
  unfolding logger_node
  logger_to_yaml_string w x = do n ← logger_node w x; gave (y.show n)

  -- The loop over `m_loggers`.
  unfoldable pub push_loggers : World → List (Text × ℕ) → y.Node → Outcome y.Node
  unfolding logger_to_yaml_string
  push_loggers w [] node = gave node
  push_loggers w ((k, l) ∷ ns) node = do
    t ← logger_to_yaml_string w (w.loggers l)
    n ← y.load t
    push_loggers w ns (b.push_back node n)

  -- `LoggerManager::to_yaml_string`.
  unfoldable pub manager_to_yaml_string : World → Outcome Text
  unfolding push_loggers in_order
  manager_to_yaml_string w = do node ← push_loggers w (in_order w.names) b.null; gave (y.show node)
