-- ===== src/Config/Tests/Values.antt =====
-- The theorems on variables and on the variable `logs` (wb_server/config.h, wb_server/log.cc), at
-- inputs.
use cpp_wb_server.Yaml.{Outcome, gave, Yaml}
use cpp_wb_server.Log.Level
use cpp_wb_server.Log.Level.{unknow}
use cpp_wb_server.Log.Define.{insert, LogDefine}
use cpp_wb_server.Log.Define.Laws.{Sorted}
use cpp_wb_server.Log.Define.Plain.{IsPlain, parse-IsPlain}
use cpp_wb_server.Log.Define.Parse.{parse}
use cpp_wb_server.Common.{
  ◌+◌, ℕ, ◌≡◌, refl, inr, false, List, [], ◌∷◌, ◌++◌, Option, none, some, Text, codes, eq_text,
  ◌==◌, if◌then◌else◌, arith, All,
}
use cpp_wb_server.Yaml.Coded.{coded_yaml, coded_builder}
use cpp_wb_server.Log.Level.{debug, warn}
use cpp_wb_server.Log.World.{World, ok, console}
use cpp_wb_server.Log.Logger.Delivery.{append_output}
use cpp_wb_server.Log.Manager.{boot}
use cpp_wb_server.Log.Manager.Invariant.{IsValid}
use cpp_wb_server.Log.Manager.Operations.{boot-IsValid}
use cpp_wb_server.Log.Define.{AppenderDefine, LogDefine}
use cpp_wb_server.Config.Var
use cpp_wb_server.Config.Var.{
  Callback, Caster, ConfigVar, Places, set_value, from_string, add_listener, del_listener,
  get_listener,
}
use cpp_wb_server.Config.Var.Listeners.{Keys, listeners}
use cpp_wb_server.Config.Var.Calls.{
  Settled, Answers, recorder, set_value-calls, from_string-Settled,
}
use cpp_wb_server.Config.Logs.{logs_caster, g_log_defines}
use cpp_wb_server.Config.Logs.Loading.{with_appenders, from_string-logs, set_value-ignores}
use cpp_wb_server.Config.Tests.{the_site, the_system, text_caster}

abbrev watched : ConfigVar Text
watched = record (Var.new (codes "size") (codes "1") []) {
  cbs = recorder (1, λ old new. console (old ++ new)) ∷ [];
}

set_value-calls_example :
    set_value text_caster (codes "2") watched boot
    ≡ ok (
      record watched { value = codes "2" },
      (append_output boot (console (codes "12") ∷ []), none),
    )
set_value-calls_example =
    set_value-calls text_caster ((1, λ old new. console (old ++ new)) ∷ []) (codes "2") watched boot
      refl

from_string-Settled_example :
    (x' : ConfigVar Text) × (w' : World) × (from_string the_system the_site text_caster
        (codes "2")
        (Var.new (codes "size") [] [])
        boot
      ≡ ok (x', w', false))
    × Settled text_caster (codes "2") (Var.new (codes "size") [] []) x'
    × IsValid w'
    × Answers the_system the_site text_caster (codes "2") (Var.new (codes "size") [] []) boot x' w'
from_string-Settled_example =
    from_string-Settled (λ v. Unit) the_system the_site text_caster (codes "2")
      (Var.new (codes "size") [] []) boot (λ v h. tt) tt tt boot-IsValid

abbrev silent : Callback Text
silent old new w = ok (w, none)

abbrev bare : ConfigVar Text
bare = Var.new (codes "size") [] []

listeners_example :
    (get_listener 1 bare ≡ none)
    × ((add_listener 0 silent bare).0 ≡ 1)
    × Keys 0 1 (add_listener 0 silent bare).1.cbs
    × (get_listener 1 (add_listener 0 silent bare).1 ≡ some silent)
    × Keys 0 0 (del_listener 1 bare).cbs
    × (get_listener 1 (del_listener 1 (add_listener 0 silent bare).1) ≡ none)
    × (get_listener 2 (del_listener 1 bare) ≡ get_listener 2 bare)
listeners_example = listeners 0 1 2 silent bare (omega arith) tt

abbrev to_console : AppenderDefine
to_console = record { type = 2; level = debug; formatter = []; file = [] }

abbrev define_a : LogDefine
define_a = record { name = codes "a"; level = warn; formatter = []; appenders = to_console ∷ [] }

from_string-logs_example :
    (x' : ConfigVar (List LogDefine)) × (w' : World) × (from_string the_system the_site
        (logs_caster coded_yaml [] coded_builder)
        (codes "7")
        (record (g_log_defines the_system the_site 0) { value = define_a ∷ [] })
        boot
      ≡ ok (x', w', false))
    × Settled
        (logs_caster coded_yaml [] coded_builder)
        (codes "7")
        (record (g_log_defines the_system the_site 0) { value = define_a ∷ [] })
        x'
    × IsValid w'
    × Answers the_system the_site
        (logs_caster coded_yaml [] coded_builder)
        (codes "7")
        (record (g_log_defines the_system the_site 0) { value = define_a ∷ [] })
        boot
        x'
        w'
from_string-logs_example =
    from_string-logs coded_yaml [] coded_builder the_system the_site 0 (define_a ∷ []) (codes "7")
      boot ((tt, tt), ((inr refl, tt), tt)) boot-IsValid

set_value-ignores_example :
    set_value
      (logs_caster coded_yaml [] coded_builder)
      (with_appenders (λ d. []) (define_a ∷ []))
      (record (g_log_defines the_system the_site 0) { value = define_a ∷ [] })
      boot
    ≡ ok (record (g_log_defines the_system the_site 0) { value = define_a ∷ [] }, (boot, none))
set_value-ignores_example =
    set_value-ignores coded_yaml [] coded_builder (λ d. [])
      (record (g_log_defines the_system the_site 0) { value = define_a ∷ [] }) boot

-- A list of one definition with a console appender.
abbrev list_yaml_field : ℕ → Text → Outcome (Option ℕ)
list_yaml_field n k =
    if eq_text k (codes "name")
    then gave (some 2)
    else if eq_text k (codes "type")
    then gave (some 5)
    else if eq_text k (codes "appenders")
    then gave (some 3)
    else gave none

abbrev list_yaml : Yaml
list_yaml = record {
  Node = ℕ;
  load = λ s. gave 0;
  size = λ n. 1;
  at = λ n i. n + 1;
  field = list_yaml_field;
  as_text = λ n. gave (if n == 5 then codes "StdoutLogAppender" else codes "a");
  scalar = λ n. none;
  entries = λ n. none;
  show = λ n. [];
}

abbrev parsed : LogDefine
parsed = record {
  name = codes "a";
  level = unknow;
  formatter = [];
  appenders = record { type = 2; level = unknow; formatter = []; file = [] } ∷ [];
}

list_yaml-parse : (parse list_yaml []).outcome ≡ gave (parsed ∷ [])
unfolding parse insert Level.from_string
list_yaml-parse = refl

parse-IsPlain_example :
    Sorted (parsed ∷ []) × All (λ (d : LogDefine). All IsPlain d.appenders) (parsed ∷ [])
parse-IsPlain_example = parse-IsPlain list_yaml [] (parsed ∷ []) list_yaml-parse
