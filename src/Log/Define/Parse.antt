-- ===== src/Log/Define/Parse.antt =====
-- `LexicalCast<std::string, std::set<LogDefine>>` of wb_server/log.cc.
use cpp_wb_server.Common.{
  List, [], ◌∷◌, ◌++◌, Option, none, some, Text, codes, eq_text, if◌then◌else◌,
}
use cpp_wb_server.Yaml.{Outcome, gave, threw, Yaml, elements}
use cpp_wb_server.Log.Level.{unknow, from_string}
use cpp_wb_server.Log.Define.{AppenderDefine, LogDefine, insert}

-- What a statement has printed to the console, and its value or exception.
pub record Run {ℓ} (A : Type ℓ) : Type ℓ where
  pub printed : List Text
  pub outcome : Outcome A

abbrev pub pure {ℓ} : {A : Type ℓ} → A → Run A
pure a = record { printed = []; outcome = gave a }

abbrev pub lift {ℓ} : {A : Type ℓ} → Outcome A → Run A
lift o = record { printed = []; outcome = o }

abbrev pub then_run {ℓ κ} : {A : Type ℓ} {B : Type κ} → List Text → Outcome A → (A → Run B) → Run B
then_run ps (gave a) f = let r = f a in record { printed = ps ++ r.printed; outcome = r.outcome }
then_run ps (threw e) f = record { printed = ps; outcome = threw e }

infixl 5 ◌>>=◌
abbrev pub ◌>>=◌ {ℓ κ} : {A : Type ℓ} {B : Type κ} → Run A → (A → Run B) → Run B
r >>= f = then_run r.printed r.outcome f

-- `std::cout << "log config error: " ... << std::endl` and `continue`.
abbrev pub complain : Text → Text → Run (Option AppenderDefine)
complain what shown = record {
  printed = (codes "log config error: " ++ (what ++ (shown ++ codes "\n"))) ∷ [];
  outcome = gave none;
}

module _ (y : Yaml) where
  -- `n[key].as<std::string>()` if it is defined, `text` if not.
  unfoldable pub text_or : Text → y.Node → Text → Run Text
  text_or text n key = do
    f ← lift (y.field n key)
    elim f [ none ↦ pure text | some v ↦ lift (y.as_text v) ]

  abbrev pub blank : AppenderDefine
  blank = record { type = 0; level = unknow; formatter = []; file = [] }

  unfoldable pub parse_file : y.Node → Run (Option AppenderDefine)
  unfolding text_or
  parse_file a = do
    file ← lift (y.field a (codes "file"))
    elim file [
      | none ↦ complain (codes "fileappender file is null, ") (y.show a)
      | some v ↦ do
        name ← lift (y.as_text v)
        formatter ← text_or [] a (codes "formatter")
        pure (some (record blank { type = 1; file = name; formatter = formatter }))
    ]

  -- The body of the loop over `n["appenders"]`; `none` is a `continue`.
  unfoldable pub parse_appender : y.Node → Run (Option AppenderDefine)
  unfolding parse_file
  parse_appender a = do
    type ← lift (y.field a (codes "type"))
    elim type [
      | none ↦ complain (codes "appender type is null, ") (y.show a)
      | some v ↦ do
        t ← lift (y.as_text v)
        if eq_text t (codes "FileLogAppender")
            then parse_file a
            else if eq_text t (codes "StdoutLogAppender")
            then pure (some (record blank { type = 2 }))
            else complain (codes "appender type is invalid, ") (y.show a)
    ]

  unfoldable pub parse_appenders : List y.Node → Run (List AppenderDefine)
  unfolding parse_appender
  parse_appenders [] = pure []
  parse_appenders (a ∷ as') = do
    lad ← parse_appender a
    rest ← parse_appenders as'
    pure (elim lad [ none ↦ rest | some x ↦ x ∷ rest ])

  -- The body of the outer loop behind the test of `name`.
  unfoldable pub parse_named : y.Node → y.Node → Run LogDefine
  unfolding parse_appenders
  parse_named n name = do
    s ← lift (y.as_text name)
    level ← text_or [] n (codes "level")
    formatter ← text_or [] n (codes "formatter")
    found ← lift (y.field n (codes "appenders"))
    appenders ← elim found [ none ↦ pure [] | some v ↦ parse_appenders (elements y v) ]
    pure (record {
      name = s;
      level = from_string level;
      formatter = formatter;
      appenders = appenders;
    })

  -- The body of the outer loop; `none` is its `continue`.
  unfoldable pub parse_define : y.Node → Run (Option LogDefine)
  unfolding parse_named
  parse_define n = do
    name ← lift (y.field n (codes "name"))
    elim name [
      | none ↦ record {
        printed = (codes "log config error: name is null, " ++ (y.show n ++ codes "\n")) ∷ [];
        outcome = gave none;
      }
      | some v ↦ do d ← parse_named n v; pure (some d)
    ]

  unfoldable pub parse_defines : List LogDefine → List y.Node → Run (List LogDefine)
  unfolding parse_define
  parse_defines vec [] = pure vec
  parse_defines vec (n ∷ ns) = do
    d ← parse_define n
    parse_defines (elim d [ none ↦ vec | some ld ↦ insert ld vec ]) ns

  -- `operator()`.
  unfoldable pub parse : Text → Run (List LogDefine)
  unfolding parse_defines
  parse v = do node ← lift (y.load v); parse_defines [] (elements y node)
