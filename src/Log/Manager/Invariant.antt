-- ===== src/Log/Manager/Invariant.antt =====
-- The invariant of the objects behind `LoggerManager` (wb_server/log.cc), kept by every operation.
use cpp_wb_server.Common.{
  Text, ℕ, ◌≡◌, refl, ◌∙◌, ap, ◌<◌, inl, inr, true, List, [], ◌∷◌, Option, none, some, ◌==◌,
  if◌then◌else◌, All, All-mono, arith, update_cases, Bool-cases,
}
use cpp_wb_server.Log.Formatter.{Formatter}
use cpp_wb_server.Log.World.{Appender, Logger, World, put_appender, put_logger}
use cpp_wb_server.Log.Logger
use cpp_wb_server.Log.Manager.{find_name}
use cpp_wb_server.Log.Logger.Frame.{present, Same}

-- An appender that exists and has a formatter.
abbrev pub Ready : World → ℕ → Type 0
Ready w a = (a < w.next_appender) × (present (w.appenders a).formatter ≡ true)

-- Every logger has a formatter, its appenders are ready, and all but the root point to the root.
pub record IsValid (w : World) : Type 0 where
  pub root_exists : w.root < w.next_logger
  pub rooted :
      (l : ℕ) → l < w.next_logger → (w.loggers l).root ≡ (if l == w.root then none else some w.root)
  pub formatted : (l : ℕ) → l < w.next_logger → present (w.loggers l).formatter ≡ true
  pub ready : (l : ℕ) → l < w.next_logger → All (Ready w) (w.loggers l).appenders
  pub named :
      (n : Text) (l : ℕ)
      → find_name w.names n ≡ some l
      → (l < w.next_logger) × ((w.loggers l).name ≡ n)

pub put_logger-IsValid :
    (l : ℕ) (x : Logger) (w : World)
    → IsValid w
    → x.root ≡ (w.loggers l).root
    → x.name ≡ (w.loggers l).name
    → present x.formatter ≡ true
    → All (Ready w) x.appenders
    → IsValid (put_logger w l x)
put_logger-IsValid l x w v same called f r = record {
  root_exists = v.root_exists;
  rooted = λ k h.
      update_cases (λ y. y.root ≡ (if k == w.root then none else some w.root)) w.loggers l k x
        (λ e. same ∙ rw e (v.rooted k h)) (λ n. v.rooted k h);
  formatted = λ k h.
      update_cases (λ y. present y.formatter ≡ true) w.loggers l k x (λ e. f)
        (λ n. v.formatted k h);
  ready = λ k h.
      update_cases (λ y. All (Ready w) y.appenders) w.loggers l k x (λ e. r) (λ n. v.ready k h);
  named = λ n k h. (
    (v.named n k h).0,
    update_cases (λ y. y.name ≡ n) w.loggers l k x (λ e. called ∙ rw e (v.named n k h).1)
        (λ ne. (v.named n k h).1),
  );
}

-- A change of the appenders that leaves every attached one ready.
pub Ready-IsValid :
    (w w' : World)
    → IsValid w
    → w'.loggers ≡ w.loggers
    → w'.next_logger ≡ w.next_logger
    → w'.root ≡ w.root
    → w'.names ≡ w.names
    → ((a : ℕ) → Ready w a → Ready w' a)
    → IsValid w'
Ready-IsValid w w' v ls n r ns keep = record {
  root_exists = ground (arith, v.root_exists);
  rooted = λ k h. rw (ls, r) (v.rooted k (rw n at h));
  formatted = λ k h. rw ls (v.formatted k (rw n at h));
  ready = λ k h. rw ls (All-mono _ _ (w.loggers k).appenders keep (v.ready k (rw n at h)));
  named = λ m k h. rw (ls, n) (v.named m k (rw ns at h));
}

pub Ready-put_appender :
    (a : ℕ) (x : Appender) (w : World) (b : ℕ)
    → present x.formatter ≡ true
    → Ready w b
    → Ready (put_appender w a x) b
Ready-put_appender a x w b f h =
    (h.0, update_cases (λ y. present y.formatter ≡ true) w.appenders a b x (λ e. f) (λ n. h.1))

pub put_appender-IsValid :
    (a : ℕ) (x : Appender) (w : World)
    → IsValid w
    → present x.formatter ≡ true
    → IsValid (put_appender w a x)
put_appender-IsValid a x w v f =
    Ready-IsValid w (put_appender w a x) v refl refl refl refl λ b. Ready-put_appender a x w b f

-- An appender that keeps its formatter may change in all else.
pub put_kept-IsValid :
    (a : ℕ) (x : Appender) (w : World)
    → IsValid w
    → x.formatter ≡ (w.appenders a).formatter
    → IsValid (put_appender w a x)
put_kept-IsValid a x w v e = Ready-IsValid w (put_appender w a x) v refl refl refl refl (λ b h. (
  h.0,
  update_cases (λ (y : Appender). present y.formatter ≡ true) w.appenders a b x
      (λ same. ap present (e ∙ ap (λ k. (w.appenders k).formatter) same) ∙ h.1) (λ ne. h.1),
))

inherit_formatter-present :
    (f : Formatter) (a : Appender)
    → present a.formatter ≡ true
    → present (Logger.inherit_formatter (some f) a).formatter ≡ true
unfolding Logger.inherit_formatter
inherit_formatter-present f a h = ground arith

pub adopt-present :
    (a : Appender) (f : Option Formatter)
    → present f ≡ true
    → present (Logger.adopt a f).formatter ≡ true
unfolding Logger.adopt
adopt-present a f h = ground arith

pub All-erase_first {κ} :
    (P : ℕ → Type κ) (a : ℕ) (as' : List ℕ) → All P as' → All P (Logger.erase_first a as')
unfolding Logger.erase_first
All-erase_first P a [] h = h
All-erase_first P a (b ∷ as') h = elim (Bool-cases (b == a)) [
  | inl e ↦ rw e h.1
  | inr e ↦ rw e (h.0, All-erase_first P a as' h.1)
]

pub inherit_all-IsValid :
    (f : Formatter) (as' : List ℕ) (w : World)
    → IsValid w
    → All (Ready w) as'
    → IsValid (Logger.inherit_all (some f) as' w)
unfolding Logger.inherit_all
inherit_all-IsValid f [] w v r = v
inherit_all-IsValid f (a ∷ as') w v r =
    let x : Appender = Logger.inherit_formatter (some f) (w.appenders a) in
    let p : present x.formatter ≡ true = inherit_formatter-present f (w.appenders a) r.0.1 in
    inherit_all-IsValid f as' (put_appender w a x) (put_appender-IsValid a x w v p)
      (All-mono _ _ as' (λ b. Ready-put_appender a x w b p) r.1)

pub Same-IsValid : {w w' : World} → Same w w' → IsValid w → IsValid w'
Same-IsValid {w} {w'} s v =
    Ready-IsValid w w' v s.loggers_same s.next_logger_same s.root_same s.names_same
      λ a h. (ground arith, ap present (s.formatter_same a) ∙ h.1)
