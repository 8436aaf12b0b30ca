-- ===== src/Log/Logger/Frame.antt =====
-- What `log` of wb_server/log.cc leaves alone, and that it never calls through a null formatter.
use cpp_wb_server.Common.{
  ℕ, ◌≡◌, refl, ◌∙◌, ap, inl, inr, Bool, true, false, List, [], ◌∷◌, Option, none, some, Text, All,
  All-mono, arith, Bool-cases,
}
use cpp_wb_server.Log.Level.{Level, le}
use cpp_wb_server.Log.Event.{Event}
use cpp_wb_server.Log.Formatter.{Formatter, format}
use cpp_wb_server.Log.World.{
  FileStream, Output, console, emit, Target, stdout, to_file, World, System, Result, ok, ◌>>=◌,
  deref,
}
use cpp_wb_server.Log.Appender
use cpp_wb_server.Log.Logger.{emit_all, log_all}

abbrev pub present {ℓ} : {A : Type ℓ} → Option A → Bool
present none = false
present (some _) = true

-- `w'` differs from `w` in the output and the file streams only.
pub record Same (w w' : World) : Type 0 where
  pub loggers_same : w'.loggers ≡ w.loggers
  pub next_logger_same : w'.next_logger ≡ w.next_logger
  pub next_appender_same : w'.next_appender ≡ w.next_appender
  pub names_same : w'.names ≡ w.names
  pub root_same : w'.root ≡ w.root
  pub formatter_same : (a : ℕ) → (w'.appenders a).formatter ≡ (w.appenders a).formatter
  pub level_same : (a : ℕ) → (w'.appenders a).level ≡ (w.appenders a).level
  pub own_same : (a : ℕ) → (w'.appenders a).has_formatter ≡ (w.appenders a).has_formatter

pub Same-refl : (w : World) → Same w w
Same-refl w = record {
  loggers_same = refl;
  next_logger_same = refl;
  next_appender_same = refl;
  names_same = refl;
  root_same = refl;
  formatter_same = λ a. refl;
  level_same = λ a. refl;
  own_same = λ a. refl;
}

pub Same-trans : {u v w : World} → Same u v → Same v w → Same u w
Same-trans p q = record {
  loggers_same = q.loggers_same ∙ p.loggers_same;
  next_logger_same = q.next_logger_same ∙ p.next_logger_same;
  next_appender_same = q.next_appender_same ∙ p.next_appender_same;
  names_same = q.names_same ∙ p.names_same;
  root_same = q.root_same ∙ p.root_same;
  formatter_same = λ a. q.formatter_same a ∙ p.formatter_same a;
  level_same = λ a. q.level_same a ∙ p.level_same a;
  own_same = λ a. q.own_same a ∙ p.own_same a;
}

-- The call returns, and changes nothing but output and streams.
abbrev pub Logs : World → Result World → Type 0
Logs w r = (w' : World) × (r ≡ ok w') × Same w w'

present-some {ℓ} : {A : Type ℓ} (o : Option A) → present o ≡ true → (a : A) × (o ≡ some a)
present-some none h = cc
present-some (some a) h = (a, refl)

pub emit-Same : (w : World) (o : Output) → Same w (emit w o)
emit-Same w o = record {
  loggers_same = refl;
  next_logger_same = refl;
  next_appender_same = refl;
  names_same = refl;
  root_same = refl;
  formatter_same = λ a. refl;
  level_same = λ a. refl;
  own_same = λ a. refl;
}

pub emit_all-Same : (w : World) (ts : List Text) → Same w (emit_all w ts)
emit_all-Same w ts = record {
  loggers_same = refl;
  next_logger_same = refl;
  next_appender_same = refl;
  names_same = refl;
  root_same = refl;
  formatter_same = λ a. refl;
  level_same = λ a. refl;
  own_same = λ a. refl;
}

write_file-Same :
    (sys : System) (a : ℕ) (s : FileStream) (text : Text) (w : World)
    → Same w (Appender.write_file sys a s text w)
unfolding Appender.write_file
write_file-Same sys a s text w = record {
  loggers_same = ground arith;
  next_logger_same = ground arith;
  next_appender_same = ground arith;
  names_same = ground arith;
  root_same = ground arith;
  formatter_same = λ b. ground arith;
  level_same = λ b. ground arith;
  own_same = λ b. ground arith;
}

log_to-Logs :
    (sys : System) (a : ℕ) (t : Target) (l : Level) (e : Event) (w : World)
    → present (w.appenders a).formatter ≡ true
    → Logs w (Appender.log_to sys a t l e w)
unfolding Appender.log_to
log_to-Logs sys a stdout l e w h =
    let (f, hf) = present-some (w.appenders a).formatter h in
    let w' : World = emit w (console (format (Appender.printer sys w) l e f)) in
    (
      w',
      ap (λ o. deref o >>= λ g. ok (emit w (console (format (Appender.printer sys w) l e g)))) hf,
      emit-Same w _,
    )
log_to-Logs sys a (to_file s) l e w h =
    let (f, hf) = present-some (w.appenders a).formatter h in
    let w' : Formatter → World = λ g.
      Appender.write_file sys a (Appender.refresh sys s) (format (Appender.printer sys w) l e g)
        w in
    (
      w' f,
      ap (λ o. deref o >>= λ g. ok (w' g)) hf,
      write_file-Same sys a (Appender.refresh sys s) _ w,
    )

pub log-Logs :
    (sys : System) (a : ℕ) (l : Level) (e : Event) (w : World)
    → present (w.appenders a).formatter ≡ true
    → Logs w (Appender.log sys a l e w)
unfolding Appender.log
log-Logs sys a l e w h = elim (Bool-cases (le (w.appenders a).level l)) [
  | inl on ↦ rw on (log_to-Logs sys a (w.appenders a).target l e w h)
  | inr off ↦ rw off (w, refl, Same-refl w)
]

-- Every appender has a formatter.
abbrev pub AllPresent : World → List ℕ → Type 0
AllPresent w = All (λ a. present (w.appenders a).formatter ≡ true)

pub log_all-Logs :
    (sys : System) (as' : List ℕ) (l : Level) (e : Event) (w : World)
    → AllPresent w as'
    → Logs w (log_all sys as' l e w)
unfolding log_all
log_all-Logs sys [] l e w h = (w, refl, Same-refl w)
log_all-Logs sys (a ∷ as') l e w h =
    let (w₁, e₁, s₁) = log-Logs sys a l e w h.0 in
    let still : AllPresent w₁ as' =
      All-mono _ _ as' (λ b p. ap present (s₁.formatter_same b) ∙ p) h.1 in
    let (w₂, e₂, s₂) = log_all-Logs sys as' l e w₁ still in (w₂, rw e₁ e₂, Same-trans s₁ s₂)
