-- ===== src/Log/Listener/Frame.antt =====
-- What each step of the listener in wb_server/log.cc leaves alone.
use cpp_wb_server.Common.{
  ℕ, ◌≡◌, ◌≢◌, refl, sym, ◌∙◌, ap, List, [], ◌∷◌, Option, some, Text, if_cases, update_self,
  update_ne,
}
use cpp_wb_server.Log.Level.{Level}
use cpp_wb_server.Log.Formatter.{Formatter, new}
use cpp_wb_server.Log.World.{Appender, Logger, World, put_logger, put_appender, emit_all}
use cpp_wb_server.Log.Manager.{alloc_appender}
use cpp_wb_server.Log.Logger
use cpp_wb_server.Log.Logger.Propagation.{inherit_all-loggers}

-- From `w` to `w'` the only logger that changes is the one at `l`.
pub record Touches (l : ℕ) (w w' : World) : Type 0 where
  pub others : (k : ℕ) → k ≢ l → w'.loggers k ≡ w.loggers k
  pub next_kept : w'.next_logger ≡ w.next_logger
  pub names_kept : w'.names ≡ w.names
  pub root_kept : w'.root ≡ w.root

pub Touches-refl : (l : ℕ) (w : World) → Touches l w w
Touches-refl l w = record {
  others = λ k n. refl;
  next_kept = refl;
  names_kept = refl;
  root_kept = refl;
}

pub Touches-trans : {l : ℕ} {u v w : World} → Touches l u v → Touches l v w → Touches l u w
Touches-trans p q = record {
  others = λ k n. q.others k n ∙ p.others k n;
  next_kept = q.next_kept ∙ p.next_kept;
  names_kept = q.names_kept ∙ p.names_kept;
  root_kept = q.root_kept ∙ p.root_kept;
}

pub put_logger-Touches : (l : ℕ) (x : Logger) (w : World) → Touches l w (put_logger w l x)
put_logger-Touches l x w = record {
  others = λ k n. update_ne w.loggers l k x (λ e. n (sym e));
  next_kept = refl;
  names_kept = refl;
  root_kept = refl;
}

-- The loggers are all the same.
pub same-Touches :
    (l : ℕ) (w w' : World)
    → w'.loggers ≡ w.loggers
    → w'.next_logger ≡ w.next_logger
    → w'.names ≡ w.names
    → w'.root ≡ w.root
    → Touches l w w'
same-Touches l w w' ls n ns r = record {
  others = λ k ne. ap (λ f. f k) ls;
  next_kept = n;
  names_kept = ns;
  root_kept = r;
}

pub set_level-Touches : (l : ℕ) (x : Level) (w : World) → Touches l w (Logger.set_level l x w)
unfolding Logger.set_level
set_level-Touches l x w = put_logger-Touches l _ w

pub clear_appender-Touches : (l : ℕ) (w : World) → Touches l w (Logger.clear_appender l w)
unfolding Logger.clear_appender
clear_appender-Touches l w = put_logger-Touches l _ w

pub add_appender-Touches : (l a : ℕ) (w : World) → Touches l w (Logger.add_appender l a w)
unfolding Logger.add_appender
add_appender-Touches l a w =
    let w' : World = put_appender w a (Logger.adopt (w.appenders a) (w.loggers l).formatter) in
    Touches-trans (same-Touches l w w' refl refl refl refl) (put_logger-Touches l _ w')

inherit_all-Touches :
    (l : ℕ) (f : Option Formatter) (as' : List ℕ) (w : World)
    → Touches l w (Logger.inherit_all f as' w)
unfolding Logger.inherit_all
inherit_all-Touches l f [] w = Touches-refl l w
inherit_all-Touches l f (a ∷ as') w =
    Touches-trans (same-Touches l w (put_appender w a _) refl refl refl refl)
      (inherit_all-Touches l f as' _)

pub set_formatter-Touches :
    (l : ℕ) (f : Option Formatter) (w : World) → Touches l w (Logger.set_formatter l f w)
unfolding Logger.set_formatter
set_formatter-Touches l f w =
    Touches-trans (put_logger-Touches l _ w) (inherit_all-Touches l f (w.loggers l).appenders _)

pub set_pattern-Touches : (l : ℕ) (s : Text) (w : World) → Touches l w (Logger.set_pattern l s w)
unfolding Logger.set_pattern
set_pattern-Touches l s w =
    if_cases (Touches l w) (new s).is_error (same-Touches l w _ refl refl refl refl) (
      Touches-trans (same-Touches l w (emit_all w (new s).reports) refl refl refl refl)
        (set_formatter-Touches l (some (new s)) (emit_all w (new s).reports)))

-- The level and the appenders of the logger at `l` are the same.
abbrev pub KeepsLevel : ℕ → World → World → Type 0
KeepsLevel l w w' = (w'.loggers l).level ≡ (w.loggers l).level

pub set_formatter-KeepsLevel :
    (l : ℕ) (f : Option Formatter) (w : World) → KeepsLevel l w (Logger.set_formatter l f w)
unfolding Logger.set_formatter
set_formatter-KeepsLevel l f w =
    ap (λ (ls : ℕ → Logger). (ls l).level) (inherit_all-loggers f (w.loggers l).appenders _)
    ∙ ap (λ (x : Logger). x.level) (update_self w.loggers l _)

pub set_pattern-KeepsLevel :
    (l : ℕ) (s : Text) (w : World) → KeepsLevel l w (Logger.set_pattern l s w)
unfolding Logger.set_pattern
set_pattern-KeepsLevel l s w =
    if_cases (KeepsLevel l w) (new s).is_error refl
      (set_formatter-KeepsLevel l (some (new s)) (emit_all w (new s).reports))

pub clear_appender-KeepsLevel : (l : ℕ) (w : World) → KeepsLevel l w (Logger.clear_appender l w)
unfolding Logger.clear_appender
clear_appender-KeepsLevel l w = ap (λ (x : Logger). x.level) (update_self w.loggers l _)

pub add_appender-KeepsLevel : (l a : ℕ) (w : World) → KeepsLevel l w (Logger.add_appender l a w)
unfolding Logger.add_appender
add_appender-KeepsLevel l a w = ap (λ (x : Logger). x.level) (update_self w.loggers l _)

pub alloc_appender-Touches : (l : ℕ) (x : Appender) (w : World) → Touches l w (alloc_appender x w)
unfolding alloc_appender
alloc_appender-Touches l x w = same-Touches l w _ refl refl refl refl
