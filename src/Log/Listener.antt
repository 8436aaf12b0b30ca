-- ===== src/Log/Listener.antt =====
-- The listener of the `logs` variable, `LogIniter` in wb_server/log.cc.
pub mod Frame
pub mod Final
pub mod Adding
pub mod Updates
pub mod Names
pub mod Steps
use cpp_wb_server.Common.{
  ℕ, not, List, [], ◌∷◌, ◌++◌, Option, none, some, Text, codes, decimal, is_empty, ◌==◌,
  if◌then◌else◌,
}
use cpp_wb_server.Log.Level.{info, unknow}
use cpp_wb_server.Log.Event.{Site}
use cpp_wb_server.Log.Event
use cpp_wb_server.Log.Formatter.{new}
use cpp_wb_server.Log.World.{
  emit_all, Appender, World, System, Result, ok, fault, ◌>>=◌, console, emit, new_stdout,
}
use cpp_wb_server.Log.Appender
use cpp_wb_server.Log.Logger
use cpp_wb_server.Log.Manager.{get_logger, alloc_appender}
use cpp_wb_server.Log.Define.{AppenderDefine, LogDefine, eq_define, find}

-- The object that `ap` is reset to; of any other type it stays null.
unfoldable pub make_target : System → AppenderDefine → Option Appender
make_target sys a =
    if a.type == 1
    then some (Appender.new_file sys a.file)
    else if a.type == 2
    then some new_stdout
    else none

abbrev pub invalid_formatter : Text → AppenderDefine → Text
invalid_formatter name a =
    codes "log.nam="
    ++ (name
        ++ (codes " appender type="
            ++ (decimal a.type ++ (codes " formatter=" ++ (a.formatter ++ codes "is invalid!\n")))))

-- What happens to `ap` before `add_appender`, with what it prints.
unfoldable pub configure : Text → AppenderDefine → Appender → World → Appender × World
configure name a x w =
    let x' = Appender.set_level x a.level in
    let f = new a.formatter in
    let w' = emit_all w f.reports in
    if not (is_empty a.formatter)
    then (if not f.is_error
        then (Appender.set_formatter x' (some f), w')
        else (x', emit w' (console (invalid_formatter name a))))
    else (x', w)

-- A new object, and the call of `add_appender` with it.
unfoldable pub attach : ℕ → Appender → World → World
attach l x w = Logger.add_appender l w.next_appender (alloc_appender x w)

-- The body of the loop over the appenders of a definition.
unfoldable pub define_appender : System → Text → ℕ → AppenderDefine → World → Result World
define_appender sys name l a w = elim (make_target sys a) [
  | none ↦ fault
  | some x ↦ let (x', w') = configure name a x w in ok (attach l x' w')
]

unfoldable pub define_appenders : System → Text → ℕ → List AppenderDefine → World → Result World
define_appenders sys name l [] w = ok w
define_appenders sys name l (a ∷ as') w = do
  w' ← define_appender sys name l a w
  define_appenders sys name l as' w'

-- The calls of `set_level`, `set_formatter` and `clear_appender` for a definition.
unfoldable pub reset_logger : ℕ → LogDefine → World → World
reset_logger l d w =
    let w₁ = Logger.set_level l d.level w in
    let w₂ = if not (is_empty d.formatter) then Logger.set_pattern l d.formatter w₁ else w₁ in
    Logger.clear_appender l w₂

-- The rest of the first loop's body, for a definition that is new or has changed.
unfoldable pub redefine : System → LogDefine → World → Result World
redefine sys d w =
    let (l, w') = get_logger d.name w in
    define_appenders sys d.name l d.appenders (reset_logger l d w')

-- The body of the first loop.
unfoldable pub update_define : System → List LogDefine → LogDefine → World → Result World
unfolding redefine
update_define sys old d w = elim (find d old) [
  | none ↦ redefine sys d w
  | some it ↦ if not (eq_define d it) then redefine sys d w else ok w
]

unfoldable pub update_all : System → List LogDefine → List LogDefine → World → Result World
unfolding update_define
update_all sys old [] w = ok w
update_all sys old (d ∷ ds) w = do w' ← update_define sys old d w; update_all sys old ds w'

-- The body of the second loop.
unfoldable pub remove_define : List LogDefine → LogDefine → World → World
remove_define new d w = elim (find d new) [
  | some _ ↦ w
  | none ↦
      let (l, w') = get_logger d.name w in Logger.clear_appender l (Logger.set_level l unknow w')
]

unfoldable pub remove_all : List LogDefine → List LogDefine → World → World
unfolding remove_define
remove_all new [] w = w
remove_all new (d ∷ ds) w = remove_all new ds (remove_define new d w)

-- The whole callback; `site` is the place of its first line.
unfoldable pub on_change : System → Site → List LogDefine → List LogDefine → World → Result World
unfolding update_all remove_all
on_change sys site old new w = do
  let e = Event.write (Event.new site w.root info) (codes "on_logger_conf_changed")
  w₁ ← Logger.log_macro 2 sys e w
  w₂ ← update_all sys old new w₁
  ok (remove_all new old w₂)
