-- ===== src/Config/Logs.antt =====
-- The variable `logs` of wb_server/log.cc with its listener.
pub mod Loading
use cpp_wb_server.Common.{ℕ, Bool, true, false, ◌&&◌, List, [], ◌∷◌, Option, none, Text, codes}
use cpp_wb_server.Yaml.{Yaml, Builder}
use cpp_wb_server.Log.World.{World, System, Result, ok, ◌>>=◌}
use cpp_wb_server.Log.Define.{LogDefine, eq_define}
use cpp_wb_server.Log.Define.Parse.{parse}
use cpp_wb_server.Log.Define.Print.{print}
use cpp_wb_server.Log.Listener.{on_change}
use cpp_wb_server.Config.Var
use cpp_wb_server.Config.Var.{Callback, Caster, ConfigVar, Places, add_listener}

-- `operator==` of `std::set<LogDefine>`.
unfoldable pub eq_defines : List LogDefine → List LogDefine → Bool
eq_defines [] [] = true
eq_defines (d ∷ ds) (e ∷ es) = eq_define d e && eq_defines ds es
eq_defines _ _ = false

-- `ConfigVar<std::set<LogDefine>>`, with the name of the type as a parameter.
abbrev pub logs_caster : (y : Yaml) → Text → Builder y → Caster (List LogDefine)
logs_caster y type_name b = record {
  equal = eq_defines;
  type_name = type_name;
  from_str = parse y;
  to_str = print y b;
}

-- The lambda that `LogIniter` adds.
unfoldable pub listener : System → Places → Callback (List LogDefine)
listener sys at old new w = do w' ← on_change sys (at 713) old new w; ok (w', none)

-- `g_log_defines` and `LogIniter::LogIniter`, on the counter of the type.
unfoldable pub g_log_defines : System → Places → ℕ → ConfigVar (List LogDefine)
g_log_defines sys at fun_id =
    (add_listener fun_id (listener sys at) (Var.new (codes "logs") [] (codes "logs config"))).1
