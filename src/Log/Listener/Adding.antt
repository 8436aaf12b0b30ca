-- ===== src/Log/Listener/Adding.antt =====
-- The listener's loop over the appenders of a definition (`LogIniter` in wb_server/log.cc).
use cpp_wb_server.Common.{
  ℕ, ◌+◌, ◌≡◌, refl, ◌∙◌, ◌<◌, ◌⊎◌, ap, subst, inl, inr, not, List, [], ◌∷◌, some, Text, if_cases,
  arith, update_self, length, length-append, is_empty, All,
}
use cpp_wb_server.Log.Formatter.{new}
use cpp_wb_server.Log.World
use cpp_wb_server.Log.World.{
  new_stdout, Appender, World, System, put_logger, put_appender, emit, emit_all, Output, Result, ok,
  ◌>>=◌,
}
use cpp_wb_server.Log.Appender
use cpp_wb_server.Log.Logger
use cpp_wb_server.Log.Logger.Frame.{Same, Same-refl, Same-trans, emit-Same, emit_all-Same}
use cpp_wb_server.Log.Manager.{alloc_appender}
use cpp_wb_server.Log.Define.Plain.{IsPlain}
use cpp_wb_server.Log.Define.{AppenderDefine}
use cpp_wb_server.Log.Manager.Invariant.{IsValid, Same-IsValid}
use cpp_wb_server.Log.Manager.Operations.{add_appender-IsValid, alloc_appender-IsValid}
use cpp_wb_server.Log.Listener.{make_target, configure, define_appender, define_appenders, attach}
use cpp_wb_server.Log.Listener.Frame.{
  Touches, Touches-trans, same-Touches, add_appender-Touches, KeepsLevel, add_appender-KeepsLevel,
  alloc_appender-Touches,
}

-- A file or the console.
abbrev pub HasTarget : AppenderDefine → Type 0
HasTarget a = (a.type ≡ 1) ⊎ (a.type ≡ 2)

pub plain-HasTarget : (a : AppenderDefine) → IsPlain a → HasTarget a
plain-HasTarget a (_, inl h) = inl h
plain-HasTarget a (_, inr h) = inr h.0

make_target-some :
    (sys : System) (a : AppenderDefine)
    → HasTarget a
    → (x : Appender) × (make_target sys a ≡ some x)
unfolding make_target
make_target-some sys a (inl h) = (Appender.new_file sys a.file, rw h)
make_target-some sys a (inr h) = (new_stdout, rw h)

configure-Same :
    (name : Text) (a : AppenderDefine) (x : Appender) (w : World) → Same w (configure name a x w).1
unfolding configure
configure-Same name a x w =
    if_cases {A = Appender × World} (λ c. Same w c.1) (not (is_empty a.formatter))
      (if_cases {A = Appender × World} (λ c. Same w c.1) (not (new a.formatter).is_error)
        (emit_all-Same w _) (Same-trans (emit_all-Same w _) (emit-Same _ _)))
      (Same-refl w)

abbrev pub count : ℕ → World → ℕ
count l w = length (w.loggers l).appenders

-- The call returns `n` appenders more at the logger `l`, and touches nothing else of the loggers.
pub record Adds (l n : ℕ) (w w' : World) : Type 0 where
  pub valid : IsValid w'
  pub touches : Touches l w w'
  pub level_kept : KeepsLevel l w w'
  pub added : count l w' ≡ count l w + n

add_appender-count : (l a : ℕ) (w : World) → count l (Logger.add_appender l a w) ≡ count l w + 1
unfolding Logger.add_appender
add_appender-count l a w =
    ap (λ (x : World.Logger). length x.appenders) (update_self w.loggers l _)
    ∙ length-append (w.loggers l).appenders (a ∷ [])

attach-Adds :
    (l : ℕ) (x : Appender) (w : World) → IsValid w → l < w.next_logger → Adds l 1 w (attach l x w)
unfolding attach
attach-Adds l x w v h =
    let w' : World = alloc_appender x w in
    let v' : IsValid w' = alloc_appender-IsValid x w v in
    record {
      valid =
          add_appender-IsValid l w' v' (unfold alloc_appender in h) w.next_appender
            (unfold alloc_appender in omega arith);
      touches =
          Touches-trans (alloc_appender-Touches l x w) (add_appender-Touches l w.next_appender w');
      level_kept = add_appender-KeepsLevel l w.next_appender w' ∙ unfold alloc_appender in refl;
      added = add_appender-count l w.next_appender w' ∙ unfold alloc_appender in refl;
    }

Adds-trans : {l : ℕ} {u v w : World} (m n : ℕ) → Adds l m u v → Adds l n v w → Adds l (m + n) u w
Adds-trans m n p q = record {
  valid = q.valid;
  touches = Touches-trans p.touches q.touches;
  level_kept = q.level_kept ∙ p.level_kept;
  added = omega (arith, p.added, q.added);
}

Same-Adds : (l : ℕ) {w w' : World} → Same w w' → IsValid w → Adds l 0 w w'
Same-Adds l {w} {w'} s v = record {
  valid = Same-IsValid s v;
  touches = same-Touches l w w' s.loggers_same s.next_logger_same s.names_same s.root_same;
  level_kept = ap (λ f. (f l).level) s.loggers_same;
  added = ap (λ f. length (f l).appenders) s.loggers_same ∙ omega arith;
}

module _ (sys : System) (name : Text) (l : ℕ) where
  define_appender-Adds :
      (a : AppenderDefine) (w : World)
      → HasTarget a
      → IsValid w
      → l < w.next_logger
      → (w' : World) × (define_appender sys name l a w ≡ ok w') × Adds l 1 w w'
  define_appender-Adds a w t v h =
      let (x, hx) = make_target-some sys a t in
      let c : Appender × World = configure name a x w in
      let s : Same w c.1 = configure-Same name a x w in
      (
        attach l c.0 c.1,
        unfold define_appender in rw (hx, define_appender),
        Adds-trans 0 1 (Same-Adds l s v)
            (attach-Adds l c.0 c.1 (Same-IsValid s v) (rw s.next_logger_same h)),
      )

  pub define_appenders-Adds :
      (as' : List AppenderDefine) (w : World)
      → All HasTarget as'
      → IsValid w
      → l < w.next_logger
      → (w' : World) × (define_appenders sys name l as' w ≡ ok w') × Adds l (length as') w w'
  unfolding define_appenders
  define_appenders-Adds [] w t v h = (w, refl, Same-Adds l (Same-refl w) v)
  define_appenders-Adds (a ∷ as') w t v h =
      let (w₁, e₁, a₁) = define_appender-Adds a w t.0 v h in
      let (w₂, e₂, a₂) = define_appenders-Adds as' w₁ t.1 a₁.valid (rw a₁.touches.next_kept h) in
      (w₂, rw e₁ e₂, subst (λ n. Adds l n w w₂) (omega arith) (Adds-trans 1 (length as') a₁ a₂))
