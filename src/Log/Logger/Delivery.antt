-- ===== src/Log/Logger/Delivery.antt =====
-- Where a message goes (`Logger::log` and the macros of wb_server/log.h).
use cpp_wb_server.Common.{
  if_cases, ℕ, suc, ◌≡◌, refl, ◌∙◌, sym, ap, ◌<◌, inl, inr, false, List, [], ◌∷◌, ◌++◌, none, some,
  ◌==◌, ==_iff, if◌then◌else◌, All, Bool-cases, append_assoc, append-nil, concat_map,
}
use cpp_wb_server.Log.Level.{Level, le}
use cpp_wb_server.Log.Event.{Event}
use cpp_wb_server.Log.Formatter.{Formatter, format}
use cpp_wb_server.Log.World.{stdout, Output, console, World, System, Result, ok}
use cpp_wb_server.Log.Appender
use cpp_wb_server.Log.Logger.{log, log_all, log_macro}
use cpp_wb_server.Log.Logger.Total.{log_own, log_up, log_off, log-none}
use cpp_wb_server.Log.Manager.Invariant.{IsValid}

-- The appender at `a` prints to the console with the formatter `f`.
abbrev pub IsConsole : World → (ℕ → Formatter) → ℕ → Type 0
IsConsole w f a = ((w.appenders a).target ≡ stdout) × ((w.appenders a).formatter ≡ some (f a))

-- What the appender at `a` prints of an event: nothing below its level.
abbrev pub console_line : System → World → (ℕ → Formatter) → Level → Event → ℕ → List Output
console_line sys w f x e a =
    if le (w.appenders a).level x
    then console (format (Appender.printer sys w) x e (f a)) ∷ []
    else []

abbrev pub append_output : World → List Output → World
append_output w o = record w { output = w.output ++ o }

log-console :
    (sys : System) (w : World) (f : ℕ → Formatter) (x : Level) (e : Event) (a : ℕ) (o : List Output)
    → IsConsole w f a
    → Appender.log sys a x e (append_output w o)
      ≡ ok (append_output w (o ++ console_line sys w f x e a))
unfolding Appender.log Appender.log_to
log-console sys w f x e a o (t, g) = elim (Bool-cases (le (w.appenders a).level x)) [
  | inl on ↦ simp (on, t, g, append_assoc)
  | inr off ↦ simp (off, append-nil)
]

log_all-console :
    (sys : System) (w : World) (f : ℕ → Formatter) (x : Level) (e : Event) (as' : List ℕ)
    (o : List Output)
    → All (IsConsole w f) as'
    → log_all sys as' x e (append_output w o)
      ≡ ok (append_output w (o ++ concat_map (console_line sys w f x e) as'))
unfolding log_all
log_all-console sys w f x e [] o h = rw append-nil
log_all-console sys w f x e (a ∷ as') o h = rw (log-console sys w f x e a o h.0) (
    log_all-console sys w f x e as' (o ++ console_line sys w f x e a) h.1
    ∙ ap (λ t. ok (append_output w t)) (append_assoc o _ _))

-- The appenders that a message of level `x` at the logger `l` reaches: its own, or the root's.
abbrev own_or : List ℕ → List ℕ → List ℕ
own_or [] up = up
own_or (a ∷ as') up = a ∷ as'

abbrev admitted : World → Level → ℕ → List ℕ → List ℕ
admitted w x l as' = if le (w.loggers l).level x then as' else []

abbrev root_reached : World → Level → List ℕ
root_reached w x = admitted w x w.root (w.loggers w.root).appenders

abbrev reached_from : World → ℕ → Level → List ℕ → List ℕ
reached_from w l x as' = admitted w x l (own_or as' (if l == w.root then [] else root_reached w x))

abbrev pub reached : World → ℕ → Level → List ℕ
reached w l x = reached_from w l x (w.loggers l).appenders

append_nothing : (w : World) → append_output w [] ≡ w
append_nothing w = λ i. record w { output = append-nil w.output i }

root-root : (w : World) → IsValid w → (w.loggers w.root).root ≡ none
root-root w v = v.rooted w.root v.root_exists ∙ rw ((==_iff w.root w.root).1 refl)

module _ (sys : System) (w : World) (f : ℕ → Formatter) (x : Level) (e : Event) where
  abbrev Prints : List ℕ → Result World → Type 0
  Prints as' r = r ≡ ok (append_output w (concat_map (console_line sys w f x e) as'))

  Prints-nothing : (r : Result World) → r ≡ ok w → Prints [] r
  Prints-nothing r h = h ∙ ap ok (sym (append_nothing w))

  Prints-off :
      (fuel l : ℕ) (as' : List ℕ)
      → le (w.loggers l).level x ≡ false
      → Prints (admitted w x l as') (log (suc fuel) sys l x e w)
  Prints-off fuel l as' off = rw off (Prints-nothing _ (log_off fuel sys l x e w off))

  log_all-Prints : (as' : List ℕ) → All (IsConsole w f) as' → Prints as' (log_all sys as' x e w)
  log_all-Prints as' h =
      ap (log_all sys as' x e) (sym (append_nothing w)) ∙ log_all-console sys w f x e as' [] h

  log_own-Prints :
      (fuel l a : ℕ) (as' : List ℕ)
      → (w.loggers l).appenders ≡ a ∷ as'
      → All (IsConsole w f) (admitted w x l (a ∷ as'))
      → Prints (admitted w x l (a ∷ as')) (log (suc fuel) sys l x e w)
  log_own-Prints fuel l a as' q h = elim (Bool-cases (le (w.loggers l).level x)) [
    | inl on ↦ rw (on, log_own fuel sys l x e w a as' q on) (log_all-Prints (a ∷ as') (rw on at h))
    | inr off ↦ Prints-off fuel l (a ∷ as') off
  ]

  log_root-Prints :
      (fuel : ℕ) (as' : List ℕ)
      → IsValid w
      → (w.loggers w.root).appenders ≡ as'
      → All (IsConsole w f) (admitted w x w.root as')
      → Prints (admitted w x w.root as') (log (suc fuel) sys w.root x e w)
  log_root-Prints fuel [] v q h =
      if_cases (λ t. Prints t (log (suc fuel) sys w.root x e w)) (le (w.loggers w.root).level x)
        nothing nothing
    where
      nothing : Prints [] (log (suc fuel) sys w.root x e w)
      nothing = Prints-nothing _ (log-none fuel sys w.root x e w q (root-root w v))
  log_root-Prints fuel (a ∷ as') v q h = log_own-Prints fuel w.root a as' q h

  log_from-Prints :
      (l : ℕ) (as' : List ℕ)
      → IsValid w
      → l < w.next_logger
      → (w.loggers l).appenders ≡ as'
      → All (IsConsole w f) (reached_from w l x as')
      → Prints (reached_from w l x as') (log 2 sys l x e w)
  log_from-Prints l (a ∷ as') v k q h = log_own-Prints 1 l a as' q h
  log_from-Prints l [] v k q h = elim (Bool-cases (l == w.root)) [
    | inl root ↦ rw root (nothing (log-none 1 sys l x e w q (v.rooted l k ∙ rw root)))
    | inr other ↦ rw other (up other (rw other at h))
  ]
    where
      nothing : log 2 sys l x e w ≡ ok w → Prints (admitted w x l []) (log 2 sys l x e w)
      nothing r =
          if_cases (λ t. Prints t (log 2 sys l x e w)) (le (w.loggers l).level x)
            (Prints-nothing _ r) (Prints-nothing _ r)

      up :
          (l == w.root) ≡ false
          → All (IsConsole w f) (admitted w x l (root_reached w x))
          → Prints (admitted w x l (root_reached w x)) (log 2 sys l x e w)
      up other r = elim (Bool-cases (le (w.loggers l).level x)) [
        | inl on ↦
            rw (on, log_up 1 sys l x e w w.root q (v.rooted l k ∙ rw other) on)
              (log_root-Prints 0 _ v refl (rw on at r))
        | inr off ↦ Prints-off 1 l (root_reached w x) off
      ]

-- In a valid state where every appender that a message reaches prints to the console, `log` prints
-- one line for each of them that admits the level, in order, and does nothing else. A logger
-- reaches its own appenders, or the root's if it has none, where the levels of the loggers on the
-- way admit the message.
pub log_prints :
    (sys : System) (w : World) (f : ℕ → Formatter) (x : Level) (e : Event) (l : ℕ)
    → IsValid w
    → l < w.next_logger
    → All (IsConsole w f) (reached w l x)
    → log 2 sys l x e w
      ≡ ok (append_output w (concat_map (console_line sys w f x e) (reached w l x)))
log_prints sys w f x e l v k h = log_from-Prints sys w f x e l _ v k refl h

-- The guard of the macro never changes what is logged.
pub log_macro-log :
    (fuel : ℕ) (sys : System) (e : Event) (w : World)
    → log_macro (suc fuel) sys e w ≡ log (suc fuel) sys e.logger e.level e w
unfolding log_macro log
log_macro-log fuel sys e w = elim (Bool-cases (le (w.loggers e.logger).level e.level)) [
  | inl on ↦ rw on
  | inr off ↦ rw off
]
