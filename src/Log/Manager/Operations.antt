-- ===== src/Log/Manager/Operations.antt =====
-- Every operation on the loggers of wb_server/log.cc keeps the invariant.
use cpp_wb_server.Common.{
  eq_text, Bool-cases, ◌⊎◌, List, ℕ, ◌≡◌, refl, ◌∙◌, ap, ◌<◌, inl, inr, true, [], ◌∷◌, none, some,
  Text, codes, eq_text_iff, ◌==◌, ==_ne, if◌then◌else◌, All, All-append, All-mono, arith,
  update_cases, update_self, Option-cases, if_cases,
}
use cpp_wb_server.Log.Level.{Level}
use cpp_wb_server.Log.Formatter.{Formatter, new}
use cpp_wb_server.Log.World.{console, emit, emit_all, Appender, World, put_appender}
use cpp_wb_server.Log.Logger
use cpp_wb_server.Log.Logger.Frame.{emit_all-Same, present, emit-Same}
use cpp_wb_server.Log.Manager.{alloc_appender, boot, before_boot, get_logger, find_name}
use cpp_wb_server.Log.Manager.Invariant.{
  Ready, IsValid, put_logger-IsValid, Ready-IsValid, Ready-put_appender, put_appender-IsValid,
  adopt-present, All-erase_first, inherit_all-IsValid, Same-IsValid,
}

pub set_formatter-IsValid :
    (l : ℕ) (f : Formatter) (w : World)
    → IsValid w
    → l < w.next_logger
    → IsValid (Logger.set_formatter l (some f) w)
unfolding Logger.set_formatter
set_formatter-IsValid l f w v h =
    inherit_all-IsValid f (w.loggers l).appenders _
      (put_logger-IsValid l _ w v refl refl refl (v.ready l h)) (v.ready l h)

module _ (l : ℕ) (w : World) (v : IsValid w) (h : l < w.next_logger) where
  pub set_level-IsValid : (x : Level) → IsValid (Logger.set_level l x w)
  unfolding Logger.set_level
  set_level-IsValid x = put_logger-IsValid l _ w v refl refl (v.formatted l h) (v.ready l h)

  pub clear_appender-IsValid : IsValid (Logger.clear_appender l w)
  unfolding Logger.clear_appender
  clear_appender-IsValid = put_logger-IsValid l _ w v refl refl (v.formatted l h) tt

  pub add_appender-IsValid : (a : ℕ) → a < w.next_appender → IsValid (Logger.add_appender l a w)
  unfolding Logger.add_appender
  add_appender-IsValid a k =
      let f = (w.loggers l).formatter in
      let x : Appender = Logger.adopt (w.appenders a) f in
      let p : present x.formatter ≡ true = adopt-present (w.appenders a) f (v.formatted l h) in
      put_logger-IsValid l _ (put_appender w a x) (put_appender-IsValid a x w v p) refl refl
        (v.formatted l h)
        (All-append _ _ (a ∷ [])
          (All-mono _ _ (w.loggers l).appenders (λ b. Ready-put_appender a x w b p) (v.ready l h))
          ((k, ap (λ (y : Appender). present y.formatter) (update_self w.appenders a x) ∙ p), tt))

  pub del_appender-IsValid : (a : ℕ) → IsValid (Logger.del_appender l a w)
  unfolding Logger.del_appender
  del_appender-IsValid a =
      put_logger-IsValid l _ w v refl refl (v.formatted l h) (All-erase_first _ a _ (v.ready l h))

  pub set_pattern-IsValid : (s : Text) → IsValid (Logger.set_pattern l s w)
  unfolding Logger.set_pattern
  set_pattern-IsValid s = if_cases IsValid (new s).is_error refused taken
    where
      v' : IsValid (emit_all w (new s).reports)
      v' = Same-IsValid (emit_all-Same w _) v

      refused :
          IsValid
            (emit (emit_all w (new s).reports) (console (Logger.invalid_text (w.loggers l).name s)))
      refused = Same-IsValid (emit-Same (emit_all w (new s).reports) _) v'

      taken : IsValid (Logger.set_formatter l (some (new s)) (emit_all w (new s).reports))
      taken = set_formatter-IsValid l (new s) (emit_all w (new s).reports) v' h

pub alloc_appender-IsValid : (x : Appender) (w : World) → IsValid w → IsValid (alloc_appender x w)
unfolding alloc_appender
alloc_appender-IsValid x w v = Ready-IsValid w (alloc_appender x w) v refl refl refl refl λ a h. (
  omega (arith, h.0),
  update_cases (λ y. present y.formatter ≡ true) w.appenders w.next_appender a x
      (λ e. absurd (omega (arith, h.0))) (λ n. h.1),
)

pub find_name-cons :
    (n : Text) (l : ℕ) (ns : List (Text × ℕ)) (m : Text) {k : ℕ}
    → find_name ((n, l) ∷ ns) m ≡ some k
    → ((n ≡ m) × (l ≡ k)) ⊎ (find_name ns m ≡ some k)
unfolding find_name
find_name-cons n l ns m h = elim (Bool-cases (eq_text n m)) [
  | inl e ↦ inl ((eq_text_iff n m).0 e, ground arith)
  | inr e ↦ inr (ground arith)
]

pub get_logger-IsValid : (n : Text) (w : World) → IsValid w → IsValid (get_logger n w).1
unfolding get_logger
get_logger-IsValid n w v = elim (Option-cases (find_name w.names n)) [
  | inl missing ↦
      rw (missing, get_logger)
        (record {
          root_exists = omega (arith, v.root_exists);
          rooted = λ k h.
              update_cases (λ y. y.root ≡ (if k == w.root then none else some w.root)) w.loggers
                w.next_logger k _ (λ e. rw (==_ne k w.root (omega (arith, v.root_exists))))
                (λ ne. v.rooted k (omega arith));
          formatted = λ k h.
              update_cases (λ y. present y.formatter ≡ true) w.loggers w.next_logger k _ (λ e. refl)
                (λ ne. v.formatted k (omega arith));
          ready = λ k h.
              update_cases (λ y. All (Ready w) y.appenders) w.loggers w.next_logger k _ (λ e. tt)
                (λ ne. v.ready k (omega arith));
          named = λ m k h. elim (find_name-cons n w.next_logger w.names m h) [
            | inl here ↦ (
              omega (arith, here.1),
              update_cases (λ y. y.name ≡ m) w.loggers w.next_logger k _ (λ e. here.0)
                  (λ ne. absurd (ne here.1)),
            )
            | inr there ↦ (
              omega (arith, (v.named m k there).0),
              update_cases (λ y. y.name ≡ m) w.loggers w.next_logger k _
                  (λ e. absurd (omega (arith, (v.named m k there).0)))
                  (λ ne. (v.named m k there).1),
            )
          ];
        })
  | inr (l, found) ↦ rw (found, get_logger) v
]

named_root :
    (n : Text) (l : ℕ)
    → ((codes "root" ≡ n) × (0 ≡ l)) ⊎ (find_name [] n ≡ some l)
    → (l < 1) × (codes "root" ≡ n)
unfolding find_name
named_root n l (inl h) = (omega (arith, h.1), h.0)
named_root n l (inr h) = cc

before-IsValid : IsValid before_boot
unfolding before_boot
before-IsValid = record {
  root_exists = omega arith;
  rooted = λ l h. ground arith;
  formatted = λ l h. refl;
  ready = λ l h. tt;
  named = λ n l h. named_root n l (find_name-cons (codes "root") 0 [] n (unfold before_boot in h));
}

pub boot-IsValid : IsValid boot
unfolding boot
boot-IsValid = add_appender-IsValid 0 before_boot before-IsValid (omega arith) 0 (omega arith)
