-- ===== src/Log/Define/Print.antt =====
-- `LexicalCast<std::set<LogDefine>, std::string>` of wb_server/log.cc.
pub mod Appenders
pub mod Defines
pub mod Base
pub mod RoundTrip
use cpp_wb_server.Common.{
  List, [], ◌∷◌, Option, none, some, Text, codes, is_empty, ◌==◌, if◌then◌else◌,
}
use cpp_wb_server.Yaml.{Outcome, gave, ◌>>=◌, Yaml, Builder}
use cpp_wb_server.Log.Level.{Level, unknow, to_string}
use cpp_wb_server.Log.Define.{AppenderDefine, LogDefine}

module _ (y : Yaml) (b : Builder y) where
  -- `node["level"]`, unless the level is UNKNOW.
  unfoldable pub put_level : Level → y.Node → y.Node
  put_level unknow n = n
  put_level l n = b.put n (codes "level") (b.text (to_string l))

  -- `node["formatter"]`, unless the text is empty.
  unfoldable pub put_formatter : Text → y.Node → y.Node
  put_formatter t n = if is_empty t then n else b.put n (codes "formatter") (b.text t)

  -- `na["type"]`, and `na["file"]` for a file.
  unfoldable pub put_type : AppenderDefine → y.Node → y.Node
  put_type a n =
      if a.type == 1
      then b.put (b.put n (codes "type") (b.text (codes "FileLogAppender"))) (codes "file")
          (b.text a.file)
      else if a.type == 2
      then b.put n (codes "type") (b.text (codes "StdoutLogAppender"))
      else n

  unfoldable pub appender_node : AppenderDefine → y.Node
  unfolding put_type put_level put_formatter
  appender_node a = put_formatter a.formatter (put_level a.level (put_type a b.null))

  -- `n["appenders"].push_back(na)`.
  unfoldable pub push_appender : y.Node → y.Node → Outcome y.Node
  push_appender n na = do
    f ← y.field n (codes "appenders")
    gave (b.put n (codes "appenders") (b.push_back (elim f [ none ↦ b.null | some l ↦ l ]) na))

  unfoldable pub push_appenders : List AppenderDefine → y.Node → Outcome y.Node
  unfolding push_appender appender_node
  push_appenders [] n = gave n
  push_appenders (a ∷ as') n = do n' ← push_appender n (appender_node a); push_appenders as' n'

  -- The body of the loop over the definitions.
  unfoldable pub define_node : LogDefine → Outcome y.Node
  unfolding put_level put_formatter push_appenders
  define_node d =
      push_appenders d.appenders (
        put_formatter d.formatter (put_level d.level (b.put b.null (codes "name") (b.text d.name))))

  unfoldable pub push_defines : List LogDefine → y.Node → Outcome y.Node
  unfolding define_node
  push_defines [] node = gave node
  push_defines (d ∷ ds) node = do n ← define_node d; push_defines ds (b.push_back node n)

  -- `operator()`.
  unfoldable pub print : List LogDefine → Outcome Text
  unfolding push_defines
  print v = do node ← push_defines v b.null; gave (y.show node)
