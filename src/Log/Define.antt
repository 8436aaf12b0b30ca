-- ===== src/Log/Define.antt =====
-- `LogAppenderDefine`, `LogDefine` and `std::set<LogDefine>` of wb_server/log.cc.
pub mod Laws
pub mod Sets
pub mod Plain
pub mod Parse
pub mod Print
use cpp_wb_server.Common.{
  ℕ, Bool, true, false, not, ◌&&◌, List, [], ◌∷◌, Option, none, some, Text, eq_text, is_empty, ltb,
  ◌==◌, if◌then◌else◌,
}
use cpp_wb_server.Log.Level.{Level, value}

-- `type` is 1 for a file and 2 for the console.
pub record AppenderDefine : Type 0 where
  pub type : ℕ
  pub level : Level
  pub formatter : Text
  pub file : Text

pub record LogDefine : Type 0 where
  pub name : Text
  pub level : Level
  pub formatter : Text
  pub appenders : List AppenderDefine

-- `LogAppenderDefine::operator==`.
unfoldable pub eq_appender : AppenderDefine → AppenderDefine → Bool
eq_appender a b =
    a.type == b.type
    && value a.level == value b.level
    && eq_text a.formatter b.formatter
    && eq_text a.file b.file

-- `operator==` of `std::vector<LogAppenderDefine>`.
unfoldable pub eq_appenders : List AppenderDefine → List AppenderDefine → Bool
unfolding eq_appender
eq_appenders [] [] = true
eq_appenders (a ∷ as') (b ∷ bs) = eq_appender a b && eq_appenders as' bs
eq_appenders _ _ = false

-- `LogDefine::operator==`; its last test compares `appenders` with itself.
unfoldable pub eq_define : LogDefine → LogDefine → Bool
unfolding eq_appenders
eq_define d oth =
    eq_text d.name oth.name
    && value d.level == value oth.level
    && eq_text d.formatter oth.formatter
    && eq_appenders d.appenders d.appenders

-- `operator<` of `std::string`.
unfoldable pub lt_text : Text → Text → Bool
lt_text s [] = false
lt_text [] (b ∷ t) = true
lt_text (a ∷ s) (b ∷ t) = if ltb a b then true else if ltb b a then false else lt_text s t

-- `LogDefine::operator<`.
abbrev pub lt_define : LogDefine → LogDefine → Bool
lt_define d oth = lt_text d.name oth.name

-- `LogDefine::is_valid`.
abbrev pub is_valid : LogDefine → Bool
is_valid d = not (is_empty d.name)

-- `std::set::insert`: an element that is neither less nor greater stays, and the new one is dropped.
unfoldable pub insert : LogDefine → List LogDefine → List LogDefine
unfolding lt_text
insert d [] = d ∷ []
insert d (x ∷ xs) =
    if lt_define d x then d ∷ x ∷ xs else if lt_define x d then x ∷ insert d xs else x ∷ xs

-- `std::set::find`.
unfoldable pub find : LogDefine → List LogDefine → Option LogDefine
unfolding lt_text
find d [] = none
find d (x ∷ xs) = if not (lt_define d x) && not (lt_define x d) then some x else find d xs
