-- ===== src/Log/Export/Reload.antt =====
-- What the manager of wb_server/log.cc writes, given to the listener of `logs` as its first value.
use cpp_wb_server.Common.{◌≡◌, ◌⊎◌, ap, inl, inr, false, List, [], Text, All, All-mono, arith}
use cpp_wb_server.Yaml.{gave, Yaml, Builder}
use cpp_wb_server.Yaml.Laws.{IsFaithful, IsKeyed}
use cpp_wb_server.Log.Event.{Site}
use cpp_wb_server.Log.World.{World, System, ok}
use cpp_wb_server.Log.Manager.Invariant.{IsValid}
use cpp_wb_server.Log.Define.{LogDefine, find}
use cpp_wb_server.Log.Define.Parse.{Run, pure, parse}
use cpp_wb_server.Log.Define.Plain.{parse-IsPlain}
use cpp_wb_server.Log.Listener.{on_change}
use cpp_wb_server.Log.Listener.Final.{on_change-applies}
use cpp_wb_server.Log.Listener.Adding.{plain-HasTarget}
use cpp_wb_server.Log.Listener.Names.{Has}
use cpp_wb_server.Log.Listener.Updates.{AsDefined, applies}
use cpp_wb_server.Log.Export.{manager_to_yaml_string}
use cpp_wb_server.Log.Export.Reading.{defines_of, parse-manager_to_yaml_string}

applied :
    (d : LogDefine) (w : World)
    → (applies [] d ≡ false) ⊎ Has d.name (AsDefined d) w
    → Has d.name (AsDefined d) w
unfolding applies find
applied d w (inl h) = absurd (ground (arith, h))
applied d w (inr h) = h

module _ (y : Yaml) (b : Builder y) (f : IsFaithful y b) (q : IsKeyed y b f.Same) where
  -- With yaml-cpp keeping what it promises, and from a valid state of the loggers: the manager's
  -- text is made without an exception and loads again. It is read back, with nothing printed to the
  -- console, as the definitions of the loggers there are: those of the map, inserted in the order
  -- of its keys, each with its name, its level, its pattern and its appenders, of which the level is
  -- not read, and for the console not the pattern either. The listener, with these as the new set
  -- where there was none, returns in a valid state in which each of the loggers has the defined
  -- level and number of appenders.
  pub reload :
      (sys : System) (site : Site) (w : World)
      → IsValid w
      → (t : Text) × (w' : World) × (manager_to_yaml_string y b w ≡ gave t)
        × (parse y t ≡ pure (defines_of w))
        × (on_change sys site [] (defines_of w) w ≡ ok w')
        × IsValid w'
        × All (λ (d : LogDefine). Has d.name (AsDefined d) w') (defines_of w)
  reload sys site w v =
      let (t, e, r) = parse-manager_to_yaml_string y b f q w in
      let (s, p) =
        parse-IsPlain y t (defines_of w) (ap (λ (z : Run (List LogDefine)). z.outcome) r) in
      let (w', c, v', h, k) =
        on_change-applies sys site [] (defines_of w) w
          (All-mono _ _ (defines_of w) (λ d. All-mono _ _ d.appenders plain-HasTarget) p) tt s v in
      (t, w', e, r, c, v', All-mono _ _ (defines_of w) (λ d. applied d w') h)
