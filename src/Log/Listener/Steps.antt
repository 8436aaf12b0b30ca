-- ===== src/Log/Listener/Steps.antt =====
-- The listener's handling of one definition (`LogIniter` in wb_server/log.cc).
use cpp_wb_server.Common.{
  ℕ, ◌≡◌, ◌∙◌, ◌<◌, ap, not, if◌then◌else◌, if_cases, arith, update_self, length, is_empty, All,
}
use cpp_wb_server.Log.Level.{Level}
use cpp_wb_server.Log.World
use cpp_wb_server.Log.World.{
  new_stdout, Appender, World, System, put_logger, put_appender, emit, emit_all, Output, Result, ok,
  ◌>>=◌,
}
use cpp_wb_server.Log.Logger
use cpp_wb_server.Log.Manager.{get_logger}
use cpp_wb_server.Log.Define.{LogDefine}
use cpp_wb_server.Log.Manager.Invariant.{IsValid}
use cpp_wb_server.Log.Manager.Operations.{
  set_level-IsValid, clear_appender-IsValid, set_pattern-IsValid, get_logger-IsValid,
}
use cpp_wb_server.Log.Manager.Lookup.{get_logger-below}
use cpp_wb_server.Log.Listener.{reset_logger, redefine}
use cpp_wb_server.Log.Listener.Frame.{
  Touches, Touches-trans, set_level-Touches, clear_appender-Touches, set_pattern-Touches,
  set_pattern-KeepsLevel, clear_appender-KeepsLevel,
}
use cpp_wb_server.Log.Listener.Adding.{HasTarget, count, define_appenders-Adds}

-- The logger of the definition has its level and as many appenders.
pub record Defined (d : LogDefine) (l : ℕ) (w : World) : Type 0 where
  pub level_set : (w.loggers l).level ≡ d.level
  pub appenders_set : count l w ≡ length d.appenders

set_level-level : (l : ℕ) (x : Level) (w : World) → ((Logger.set_level l x w).loggers l).level ≡ x
unfolding Logger.set_level
set_level-level l x w = ap (λ (y : World.Logger). y.level) (update_self w.loggers l _)

clear_appender-count : (l : ℕ) (w : World) → count l (Logger.clear_appender l w) ≡ 0
unfolding Logger.clear_appender
clear_appender-count l w = ap (λ (y : World.Logger). length y.appenders) (update_self w.loggers l _)

-- What `reset_logger` leaves of a valid state.
record IsReset (l : ℕ) (d : LogDefine) (w w' : World) : Type 0 where
  valid : IsValid w'
  touches : Touches l w w'
  level_set : (w'.loggers l).level ≡ d.level

reset_logger-IsReset :
    (l : ℕ) (d : LogDefine) (w : World)
    → IsValid w
    → l < w.next_logger
    → IsReset l d w (reset_logger l d w) × (count l (reset_logger l d w) ≡ 0)
unfolding reset_logger
reset_logger-IsReset l d w v h = (cleared patterned, clear_appender-count l _)
  where
    w₁ : World
    w₁ = Logger.set_level l d.level w

    t₁ : Touches l w w₁
    t₁ = set_level-Touches l d.level w

    first : IsReset l d w w₁
    first = record {
      valid = set_level-IsValid l w v h d.level;
      touches = t₁;
      level_set = set_level-level l d.level w;
    }

    second : IsReset l d w (Logger.set_pattern l d.formatter w₁)
    second = record {
      valid = set_pattern-IsValid l w₁ first.valid (rw t₁.next_kept h) d.formatter;
      touches = Touches-trans t₁ (set_pattern-Touches l d.formatter w₁);
      level_set = set_pattern-KeepsLevel l d.formatter w₁ ∙ first.level_set;
    }

    patterned :
        IsReset l d w
          (if not (is_empty d.formatter) then Logger.set_pattern l d.formatter w₁ else w₁)
    patterned = if_cases (IsReset l d w) (not (is_empty d.formatter)) second first

    cleared : {u : World} → IsReset l d w u → IsReset l d w (Logger.clear_appender l u)
    cleared {u} r = record {
      valid = clear_appender-IsValid l u r.valid (rw r.touches.next_kept h);
      touches = Touches-trans r.touches (clear_appender-Touches l u);
      level_set = clear_appender-KeepsLevel l u ∙ r.level_set;
    }

-- `redefine` returns in a valid state, with the logger of the definition's name as defined.
pub redefine-Defined :
    (sys : System) (d : LogDefine) (w : World)
    → All HasTarget d.appenders
    → IsValid w
    → (w' : World) × (redefine sys d w ≡ ok w')
      × IsValid w'
      × Touches (get_logger d.name w).0 (get_logger d.name w).1 w'
      × Defined d (get_logger d.name w).0 w'
unfolding redefine
redefine-Defined sys d w t v =
    let l : ℕ = (get_logger d.name w).0 in
    let w₁ : World = (get_logger d.name w).1 in
    let h₁ : l < w₁.next_logger = get_logger-below d.name w v in
    let (r, none_left) = reset_logger-IsReset l d w₁ (get_logger-IsValid d.name w v) h₁ in
    let (w', e, a) =
      define_appenders-Adds sys d.name l d.appenders (reset_logger l d w₁) t r.valid
        (rw r.touches.next_kept h₁) in
    (
      w',
      e,
      a.valid,
      Touches-trans r.touches a.touches,
      record {
        level_set = a.level_kept ∙ r.level_set;
        appenders_set = omega (arith, a.added, none_left);
      },
    )
