-- ===== src/Log/Tests/Exports.antt =====
-- The manager of wb_server/log.cc writes its loggers, with a concrete yaml.
use cpp_wb_server.Common.{◌≡◌, Text, codes, [], ◌∷◌, refl, All}
use cpp_wb_server.Yaml.{gave}
use cpp_wb_server.Yaml.Coded.{coded_yaml, coded_builder, coded-IsFaithful, coded-IsKeyed}
use cpp_wb_server.Log.World.{World, ok}
use cpp_wb_server.Log.Manager.{boot, before_boot, get_logger}
use cpp_wb_server.Log.Logger
use cpp_wb_server.Common.Sets.{set_insert}
use cpp_wb_server.Log.Define.{LogDefine, lt_text}
use cpp_wb_server.Log.Define.Parse.{pure, parse}
use cpp_wb_server.Log.Export.{in_order, manager_to_yaml_string}
use cpp_wb_server.Log.Export.Reading.{defines_of}
use cpp_wb_server.Log.Export.Reload.{reload}
use cpp_wb_server.Log.Tests.{the_site, the_system}
use cpp_wb_server.Log.Manager.Invariant.{IsValid}
use cpp_wb_server.Log.Manager.Operations.{boot-IsValid, get_logger-IsValid}
use cpp_wb_server.Log.Listener.{on_change}
use cpp_wb_server.Log.Listener.Names.{Has}
use cpp_wb_server.Log.Listener.Updates.{AsDefined}

-- The root logger and one that was made after it.
abbrev two_loggers : World
two_loggers = (get_logger (codes "a") boot).1

in_order_sorts : in_order two_loggers.names ≡ (codes "a", 1) ∷ (codes "root", 0) ∷ []
unfolding in_order boot before_boot get_logger Logger.add_appender Logger.adopt set_insert lt_text
in_order_sorts = refl

reload_example :
    (t : Text) × (w' : World) × (manager_to_yaml_string coded_yaml coded_builder two_loggers
      ≡ gave t)
    × (parse coded_yaml t ≡ pure (defines_of two_loggers))
    × (on_change the_system the_site [] (defines_of two_loggers) two_loggers ≡ ok w')
    × IsValid w'
    × All (λ (d : LogDefine). Has d.name (AsDefined d) w') (defines_of two_loggers)
reload_example =
    reload coded_yaml coded_builder coded-IsFaithful coded-IsKeyed the_system the_site two_loggers
      (get_logger-IsValid (codes "a") boot boot-IsValid)
