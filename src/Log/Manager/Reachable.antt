-- ===== src/Log/Manager/Reachable.antt =====
-- The states that the operations on loggers and appenders of wb_server/log.cc can reach.
use cpp_wb_server.Common.{◌∙◌, sym, subst, ℕ, ◌≡◌, ◌<◌, some, Text, refl}
use cpp_wb_server.Log.Level.{Level}
use cpp_wb_server.Log.Event.{Event}
use cpp_wb_server.Log.Formatter.{Formatter}
use cpp_wb_server.Log.World.{Appender, FileStream, to_file, World, System, ok, put_appender}
use cpp_wb_server.Log.Appender
use cpp_wb_server.Log.Logger
use cpp_wb_server.Log.Logger.Total.{log-IsValid}
use cpp_wb_server.Log.Manager.{alloc_appender, boot, get_logger}
use cpp_wb_server.Log.Manager.Invariant.{IsValid, put_appender-IsValid, put_kept-IsValid}
use cpp_wb_server.Log.Manager.Operations.{
  boot-IsValid, set_level-IsValid, clear_appender-IsValid, add_appender-IsValid,
  del_appender-IsValid, set_pattern-IsValid, set_formatter-IsValid, alloc_appender-IsValid,
  get_logger-IsValid,
}

-- One call, on objects that exist. The formatter that is set is not null.
pub data Step : World → World → Type 0 where
  get_logger_step : (n : Text) (w : World) → Step w (get_logger n w).1
  new_appender : (x : Appender) (w : World) → Step w (alloc_appender x w)
  appender_formatter :
      (a : ℕ) (f : Formatter) (w : World)
      → Step w (put_appender w a (Appender.set_formatter (w.appenders a) (some f)))
  appender_level :
      (a : ℕ) (x : Level) (w : World)
      → Step w (put_appender w a (Appender.set_level (w.appenders a) x))
  reopen_step :
      (sys : System) (a : ℕ) (s : FileStream) (w : World)
      → (w.appenders a).target ≡ to_file s
      → Step w
          (put_appender w a (record (w.appenders a) { target = to_file (Appender.reopen sys s).0 }))
  set_level_step :
      (l : ℕ) (x : Level) (w : World) → l < w.next_logger → Step w (Logger.set_level l x w)
  add_appender_step :
      (l a : ℕ) (w : World)
      → l < w.next_logger
      → a < w.next_appender
      → Step w (Logger.add_appender l a w)
  del_appender_step : (l a : ℕ) (w : World) → l < w.next_logger → Step w (Logger.del_appender l a w)
  clear_appender_step : (l : ℕ) (w : World) → l < w.next_logger → Step w (Logger.clear_appender l w)
  set_formatter_step :
      (l : ℕ) (f : Formatter) (w : World)
      → l < w.next_logger
      → Step w (Logger.set_formatter l (some f) w)
  set_pattern_step :
      (l : ℕ) (s : Text) (w : World) → l < w.next_logger → Step w (Logger.set_pattern l s w)
  log_step :
      (sys : System) (l : ℕ) (x : Level) (e : Event) (w w' : World)
      → l < w.next_logger
      → Logger.log 2 sys l x e w ≡ ok w'
      → Step w w'

-- From `boot` by any number of calls.
pub data Reachable : World → Type 0 where
  at_boot : Reachable boot
  after : {w w' : World} → Reachable w → Step w w' → Reachable w'

ok-inj : {w w' : World} → ok w ≡ ok w' → w ≡ w'
ok-inj h = cc

Step-IsValid : {w w' : World} → Step w w' → IsValid w → IsValid w'
Step-IsValid (get_logger_step n w) v = get_logger-IsValid n w v
Step-IsValid (new_appender x w) v = alloc_appender-IsValid x w v
Step-IsValid (appender_formatter a f w) v =
    put_appender-IsValid a (Appender.set_formatter (w.appenders a) (some f)) w v
      (unfold Appender.set_formatter in refl)
Step-IsValid (appender_level a x w) v =
    put_kept-IsValid a (Appender.set_level (w.appenders a) x) w v refl
Step-IsValid (reopen_step sys a s w h) v =
    put_kept-IsValid a (record (w.appenders a) { target = to_file (Appender.reopen sys s).0 }) w v
      refl
Step-IsValid (set_level_step l x w h) v = set_level-IsValid l w v h x
Step-IsValid (add_appender_step l a w h k) v = add_appender-IsValid l w v h a k
Step-IsValid (del_appender_step l a w h) v = del_appender-IsValid l w v h a
Step-IsValid (clear_appender_step l w h) v = clear_appender-IsValid l w v h
Step-IsValid (set_formatter_step l f w h) v = set_formatter-IsValid l f w v h
Step-IsValid (set_pattern_step l s w h) v = set_pattern-IsValid l w v h s
Step-IsValid (log_step sys l x e w w' h r) v =
    let (u, q, s, vu) = log-IsValid sys l x e w v h in subst IsValid (ok-inj (sym q ∙ r)) vu

-- Every state that calls on existing loggers and appenders reach from the manager's start is valid,
-- where no formatter that is set is null.
pub Reachable-IsValid : (w : World) → Reachable w → IsValid w
Reachable-IsValid w at_boot = boot-IsValid
Reachable-IsValid w (after r s) = Step-IsValid s (Reachable-IsValid _ r)

-- In a state that calls reach from the manager's start, `log` on an existing logger meets no null
-- pointer and returns, at two calls deep, with the loggers as they were and in such a state.
pub log-total :
    (sys : System) (l : ℕ) (x : Level) (e : Event) (w : World)
    → Reachable w
    → l < w.next_logger
    → (w' : World) × (Logger.log 2 sys l x e w ≡ ok w') × (w'.loggers ≡ w.loggers) × Reachable w'
log-total sys l x e w r h =
    let (w', q, s, v) = log-IsValid sys l x e w (Reachable-IsValid w r) h in
    (w', q, s.loggers_same, after r (log_step sys l x e w w' h q))
