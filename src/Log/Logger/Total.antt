-- ===== src/Log/Logger/Total.antt =====
-- `Logger::log` of wb_server/log.cc returns, by the way that `m_root` ends at the root logger.
use cpp_wb_server.Common.{
  ℕ, suc, ◌≡◌, refl, ◌∙◌, ◌<◌, inl, inr, true, false, List, [], ◌∷◌, Option, none, some, ◌==◌,
  ==_iff, All-mono, Bool-cases,
}
use mathlib.Core.Option.{some-injective}
use cpp_wb_server.Log.Level.{Level, le}
use cpp_wb_server.Log.Event.{Event}
use cpp_wb_server.Log.World.{World, System, ok}
use cpp_wb_server.Log.Logger.{log, log_all}
use cpp_wb_server.Log.Logger.Frame.{Same, Same-refl, Logs, AllPresent, log_all-Logs}
use cpp_wb_server.Log.Manager.Invariant.{IsValid, Same-IsValid}

attached-present :
    (w : World) (l : ℕ) → IsValid w → l < w.next_logger → AllPresent w (w.loggers l).appenders
attached-present w l v h = All-mono _ _ (w.loggers l).appenders (λ a r. r.1) (v.ready l h)

-- The two branches behind the level test.
pub log_own :
    (fuel : ℕ) (sys : System) (l : ℕ) (x : Level) (e : Event) (w : World) (a : ℕ) (as' : List ℕ)
    → (w.loggers l).appenders ≡ a ∷ as'
    → le (w.loggers l).level x ≡ true
    → log (suc fuel) sys l x e w ≡ log_all sys (a ∷ as') x e w
unfolding log
log_own fuel sys l x e w a as' h on = rw (on, h)

pub log_up :
    (fuel : ℕ) (sys : System) (l : ℕ) (x : Level) (e : Event) (w : World) (r : ℕ)
    → (w.loggers l).appenders ≡ []
    → (w.loggers l).root ≡ some r
    → le (w.loggers l).level x ≡ true
    → log (suc fuel) sys l x e w ≡ log fuel sys r x e w
unfolding log
log_up fuel sys l x e w r h k on = rw (on, h, k)

pub log_off :
    (fuel : ℕ) (sys : System) (l : ℕ) (x : Level) (e : Event) (w : World)
    → le (w.loggers l).level x ≡ false
    → log (suc fuel) sys l x e w ≡ ok w
unfolding log
log_off fuel sys l x e w off = rw off

pub log-none :
    (fuel : ℕ) (sys : System) (l : ℕ) (x : Level) (e : Event) (w : World)
    → (w.loggers l).appenders ≡ []
    → (w.loggers l).root ≡ none
    → log (suc fuel) sys l x e w ≡ ok w
unfolding log
log-none fuel sys l x e w h k = elim (Bool-cases (le (w.loggers l).level x)) [
  | inl on ↦ rw (on, h, k)
  | inr off ↦ rw off
]

-- A logger logs if the one that it falls back on does.
log_step :
    (fuel : ℕ) (sys : System) (l : ℕ) (x : Level) (e : Event) (w : World) (as' : List ℕ)
    (o : Option ℕ)
    → (w.loggers l).appenders ≡ as'
    → (w.loggers l).root ≡ o
    → AllPresent w as'
    → ((r : ℕ) → o ≡ some r → Logs w (log fuel sys r x e w))
    → Logs w (log (suc fuel) sys l x e w)
log_step fuel sys l x e w (a ∷ as') o h k p up = elim (Bool-cases (le (w.loggers l).level x)) [
  | inl on ↦ rw (log_own fuel sys l x e w a as' h on) (log_all-Logs sys (a ∷ as') x e w p)
  | inr off ↦ rw (log_off fuel sys l x e w off) (w, refl, Same-refl w)
]
log_step fuel sys l x e w [] none h k p up =
    rw (log-none fuel sys l x e w h k) (w, refl, Same-refl w)
log_step fuel sys l x e w [] (some r) h k p up = elim (Bool-cases (le (w.loggers l).level x)) [
  | inl on ↦ rw (log_up fuel sys l x e w r h k on) (up r refl)
  | inr off ↦ rw (log_off fuel sys l x e w off) (w, refl, Same-refl w)
]

module _ (sys : System) (x : Level) (e : Event) (w : World) (v : IsValid w) where
  log_root-Logs : (fuel : ℕ) → Logs w (log (suc fuel) sys w.root x e w)
  log_root-Logs fuel =
      log_step fuel sys w.root x e w _ none refl
        (v.rooted w.root v.root_exists ∙ rw ((==_iff w.root w.root).1 refl))
        (attached-present w w.root v v.root_exists) (λ r h. cc)

  pub log-Logs : (fuel l : ℕ) → l < w.next_logger → Logs w (log (suc (suc fuel)) sys l x e w)
  log-Logs fuel l h = elim (Bool-cases (l == w.root)) [
    | inl e' ↦ rw ((==_iff l w.root).0 e') (log_root-Logs (suc fuel))
    | inr ne ↦
        log_step (suc fuel) sys l x e w _ (some w.root) refl (v.rooted l h ∙ rw ne)
          (attached-present w l v h) (λ r k. rw (← some-injective _ _ k) (log_root-Logs fuel))
  ]

-- With fuel for two loggers every call of `log` on an existing logger of a valid state returns: no
-- formatter is null, nothing but the output and the file streams changes, and the state stays
-- valid.
pub log-IsValid :
    (sys : System) (l : ℕ) (x : Level) (e : Event) (w : World)
    → IsValid w
    → l < w.next_logger
    → (w' : World) × (log 2 sys l x e w ≡ ok w') × Same w w' × IsValid w'
log-IsValid sys l x e w v h =
    let (w', r, s) = log-Logs sys x e w v 0 l h in (w', r, s, Same-IsValid s v)
