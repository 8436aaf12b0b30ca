-- ===== src/Config/Logs/Loading.antt =====
-- What reaches the listener of wb_server/log.cc through its variable, and what does not.
use cpp_wb_server.Common.{false, ℕ, ◌≡◌, refl, List, [], ◌∷◌, map, none, Text, All, All-mono, true}
use cpp_wb_server.Yaml.{gave, Yaml, Builder}
use cpp_wb_server.Log.World.{World, System, ok}
use cpp_wb_server.Log.Manager.Invariant.{IsValid}
use cpp_wb_server.Log.Define.{AppenderDefine, LogDefine, eq_define}
use cpp_wb_server.Log.Define.Laws.{Sorted, eq_define-ignores}
use cpp_wb_server.Log.Define.Parse.{parse}
use cpp_wb_server.Log.Define.Plain.{parse-IsPlain}
use cpp_wb_server.Log.Listener.Adding.{plain-HasTarget}
use cpp_wb_server.Log.Listener.Updates.{HasTargets}
use cpp_wb_server.Log.Listener.Final.{on_change-applies}
use cpp_wb_server.Config.Var
use cpp_wb_server.Config.Var.{Left, ConfigVar, Places, set_value, from_string}
use cpp_wb_server.Config.Var.Calls.{Behaves, Settled, Answers, from_string-Settled}
use cpp_wb_server.Config.Logs.{eq_defines, logs_caster, listener, g_log_defines}

-- What the conversion of a text can give.
abbrev pub IsUsable : List LogDefine → Type 0
IsUsable ds = Sorted ds × All HasTargets ds

parse-IsUsable :
    (y : Yaml) (val : Text) (ds : List LogDefine) → (parse y val).outcome ≡ gave ds → IsUsable ds
parse-IsUsable y val ds h =
    let (s, p) = parse-IsPlain y val ds h in
    (s, All-mono _ _ ds (λ d. All-mono _ _ d.appenders plain-HasTarget) p)

-- On sets that a conversion can give, the listener returns and throws nothing.
pub listener-Behaves : (sys : System) (at : Places) → Behaves IsUsable (listener sys at)
unfolding listener
listener-Behaves sys at old new w p q v =
    let (w', e, v', _, _) = on_change-applies sys (at 713) old new w q.1 p.0 q.0 v in
    ((w', none), rw e, v')

-- While the value of the variable `logs` is sorted and every appender in it is for a file or the
-- console, and the loggers are in a valid state: whatever text it is set from, the call meets no
-- null pointer, no `std::exception` leaves it, and it returns `false` with the loggers in a valid
-- state and the variable at its old value or the one that the text stands for. Where the conversion
-- throws, its `what()` is logged and the variable is unchanged; otherwise `set_value` is called.
pub from_string-logs :
    (y : Yaml) (type_name : Text) (b : Builder y) (sys : System) (at : Places) (fun_id : ℕ)
    (ds : List LogDefine) (val : Text) (w : World)
    → IsUsable ds
    → IsValid w
    → (x' : ConfigVar (List LogDefine)) × (w' : World) × (from_string sys at
          (logs_caster y type_name b)
          val
          (record (g_log_defines sys at fun_id) { value = ds })
          w
        ≡ ok (x', w', false))
      × Settled
          (logs_caster y type_name b)
          val
          (record (g_log_defines sys at fun_id) { value = ds })
          x'
      × IsValid w'
      × Answers sys at
          (logs_caster y type_name b)
          val
          (record (g_log_defines sys at fun_id) { value = ds })
          w
          x'
          w'
unfolding g_log_defines Var.add_listener Var.put_callback
from_string-logs y type_name b sys at fun_id ds val w u v =
    from_string-Settled IsUsable sys at (logs_caster y type_name b) val
      (record (g_log_defines sys at fun_id) { value = ds }) w (parse-IsUsable y val)
      (listener-Behaves sys at, tt) u v

-- The definitions with other appenders.
abbrev pub with_appenders : (LogDefine → List AppenderDefine) → List LogDefine → List LogDefine
with_appenders f ds = map (λ (d : LogDefine). record d { appenders = f d }) ds

eq_define-left :
    (d : LogDefine) (as' : List AppenderDefine) → eq_define (record d { appenders = as' }) d ≡ true
eq_define-left d as' = eq_define-ignores (record d { appenders = as' }) d.appenders

eq_defines-ignores :
    (f : LogDefine → List AppenderDefine) (ds : List LogDefine)
    → eq_defines (with_appenders f ds) ds ≡ true
unfolding eq_defines
eq_defines-ignores f [] = refl
eq_defines-ignores f (d ∷ ds) = rw (eq_define-left d (f d)) (eq_defines-ignores f ds)

-- Definitions that differ from the stored ones in their appenders only are taken for equal: setting
-- the variable to them stores nothing and calls no listener.
pub set_value-ignores :
    (y : Yaml) (type_name : Text) (b : Builder y) (f : LogDefine → List AppenderDefine)
    (x : ConfigVar (List LogDefine)) (w : World)
    → set_value (logs_caster y type_name b) (with_appenders f x.value) x w ≡ ok (x, (w, none))
unfolding set_value
set_value-ignores y type_name b f x w = rw (eq_defines-ignores f x.value)
