-- ===== src/Log/Listener/Final.antt =====
-- What the listener of wb_server/log.cc has done to the loggers when it returns.
use mathlib.Core.List.{Memᴰ}
use cpp_wb_server.Common.{
  Bool-cases, some, false, ◌⊎◌, codes, All-mono, All_at, All-mem, codes, update_self, [], ◌∷◌, All,
  ℕ, ◌≡◌, ◌≢◌, sym, ◌∙◌, ◌<◌, ap, inl, inr, List, none, Text, arith, Option-cases,
}
use cpp_wb_server.Log.World
use cpp_wb_server.Log.World.{World, System, Result, ok, ◌>>=◌}
use cpp_wb_server.Log.Manager.{get_logger, find_name}
use cpp_wb_server.Log.Define.Laws.{Sorted, Sorted-Distinct, Distinct, find-none}
use cpp_wb_server.Log.Logger.Total.{log-IsValid}
use cpp_wb_server.Log.Logger.Delivery.{log_macro-log}
use cpp_wb_server.Log.Event.{Site, Event}
use cpp_wb_server.Log.Logger
use cpp_wb_server.Log.Level.{info, unknow}
use cpp_wb_server.Log.Event
use cpp_wb_server.Log.Manager.Operations.{set_level-IsValid, clear_appender-IsValid}
use cpp_wb_server.Log.Manager.Lookup.{get_logger-below}
use cpp_wb_server.Log.Listener.Frame.{set_level-Touches, clear_appender-Touches, Touches-trans}
use cpp_wb_server.Log.Listener.{remove_define, remove_all, on_change}
use cpp_wb_server.Log.Define.{LogDefine, find}
use cpp_wb_server.Log.Manager.Invariant.{IsValid}
use cpp_wb_server.Log.Manager.Operations.{get_logger-IsValid}
use cpp_wb_server.Log.Manager.Lookup.{find_name-get_logger}
use cpp_wb_server.Log.Listener.Frame.{Touches}
use cpp_wb_server.Log.Listener.Names.{KeepsName, other-KeepsName, Has, Has-kept}
use cpp_wb_server.Log.Listener.Updates.{
  AsDefined, applies, HasTargets, KeepsName-refl, KeepsName-trans, update_all-Updated,
}

-- Silent: no appender, and the level that every event reaches.
abbrev pub Cleared : World.Logger → Type 0
Cleared x = (x.level ≡ unknow) × (x.appenders ≡ [])

-- What the second loop leaves behind.
record Removed (new ds : List LogDefine) (w w' : World) : Type 0 where
  pub valid : IsValid w'
  pub kept :
      (n : Text) → All (λ (d : LogDefine). find d new ≡ none → n ≢ d.name) ds → KeepsName n w w'
  pub cleared : All (λ (d : LogDefine). find d new ≡ none → Has d.name Cleared w') ds

clear_level :
    (l : ℕ) (w : World)
    → Cleared ((Logger.clear_appender l (Logger.set_level l unknow w)).loggers l)
unfolding Logger.clear_appender Logger.set_level
clear_level l w =
    let w₁ : World = Logger.set_level l unknow w in
    let e = update_self w₁.loggers l _ in
    (
      ap (λ (x : World.Logger). x.level) e
          ∙ ap (λ (x : World.Logger). x.level) (update_self w.loggers l _),
      ap (λ (x : World.Logger). x.appenders) e,
    )

remove_define-Removed :
    (new : List LogDefine) (d : LogDefine) (w : World)
    → IsValid w
    → Removed new (d ∷ []) w (remove_define new d w)
unfolding remove_define
remove_define-Removed new d w v = elim (Option-cases (find d new)) [
  | inr (it, h) ↦
      rw (h, remove_define)
        (record {
          valid = v;
          kept = λ n u. KeepsName-refl n w;
          cleared = (λ e. absurd (ground (arith, e, h)), tt);
        })
  | inl h ↦
      let l : ℕ = (get_logger d.name w).0 in
      let w₁ : World = (get_logger d.name w).1 in
      let w₂ : World = Logger.set_level l unknow w₁ in
      let v₁ : IsValid w₁ = get_logger-IsValid d.name w v in
      let b : l < w₁.next_logger = get_logger-below d.name w v in
      let t : Touches l w₁ w₂ = set_level-Touches l unknow w₁ in
      let u : Touches l w₁ (Logger.clear_appender l w₂) =
        Touches-trans t (clear_appender-Touches l w₂) in
      rw (h, remove_define)
        (record {
          valid =
              clear_appender-IsValid l w₂ (set_level-IsValid l w₁ v₁ b unknow) (rw t.next_kept b);
          kept = λ n a. other-KeepsName d.name n w _ v (λ e. a.0 h (sym e)) u;
          cleared = (
            λ e. (
              l,
              ap (λ ns. find_name ns d.name) u.names_kept ∙ find_name-get_logger d.name w,
              clear_level l w₁,
            ),
            tt,
          );
        })
]

remove_all-Removed :
    (new ds : List LogDefine) (w : World)
    → Distinct ds
    → IsValid w
    → Removed new ds w (remove_all new ds w)
unfolding remove_all
remove_all-Removed new [] w s v = record {
  valid = v;
  kept = λ n u. KeepsName-refl n w;
  cleared = tt;
}
remove_all-Removed new (d ∷ ds) w s v =
    let w₁ : World = remove_define new d w in
    let p = remove_define-Removed new d w v in
    let q = remove_all-Removed new ds w₁ s.1 p.valid in
    record {
      valid = q.valid;
      kept =
          λ n u. KeepsName-trans n w w₁ (remove_all new ds w₁) (p.kept n (u.0, tt)) (q.kept n u.1);
      cleared = (
        λ h.
            Has-kept d.name Cleared w₁ (remove_all new ds w₁)
              (q.kept d.name
                (All-mono (λ (x : LogDefine). d.name ≢ x.name) _ ds (λ x ne e. ne) s.0))
              (p.cleared.0 h),
        q.cleared,
      );
    }

-- When the old and the new set are sorted and every new appender is for a file or the console, the
-- listener returns from a valid state of the loggers in a valid one. Each definition that is new,
-- or that `operator==` tells from the old one of its name, has its logger with the defined level
-- and number of appenders, and each old definition that is gone has its logger with the level
-- `unknow` and no appender.
pub on_change-applies :
    (sys : System) (site : Site) (old new : List LogDefine) (w : World)
    → All HasTargets new
    → Sorted old
    → Sorted new
    → IsValid w
    → (w' : World) × (on_change sys site old new w ≡ ok w')
      × IsValid w'
      × All (λ (d : LogDefine). (applies old d ≡ false) ⊎ Has d.name (AsDefined d) w') new
      × All
          (λ (d : LogDefine). ((x : LogDefine) × (find d new ≡ some x)) ⊎ Has d.name Cleared w')
          old
unfolding on_change
on_change-applies sys site old new w t so sn v =
    let e : Event = Event.write (Event.new site w.root info) (codes "on_logger_conf_changed") in
    let (w₁, e₁, s₁, v₁) = log-IsValid sys e.logger e.level e w v v.root_exists in
    let (w₂, e₂, p) = update_all-Updated sys old new w₁ t (Sorted-Distinct new sn) v₁ in
    let q = remove_all-Removed new old w₂ (Sorted-Distinct old so) p.valid in
    (
      remove_all new old w₂,
      rw (log_macro-log 1 sys e w ∙ e₁, e₂),
      q.valid,
      All-mem _ new (λ d m. elim (Bool-cases (applies old d)) [
        | inl h ↦ inr (stays d m q (All_at _ new d p.defined m h))
        | inr h ↦ inl h
      ]),
      All-mem _ old (λ d m. elim (Option-cases (find d new)) [
        | inl h ↦ inr (All_at _ old d q.cleared m h)
        | inr h ↦ inl h
      ]),
    )
  where
    -- The second loop leaves the loggers of the new definitions.
    stays :
        {u w' : World} (d : LogDefine)
        → Memᴰ d new
        → Removed new old u w'
        → Has d.name (AsDefined d) u
        → Has d.name (AsDefined d) w'
    stays {u} {w'} d m q = Has-kept d.name (AsDefined d) u w' (
        q.kept d.name (
          All-mem _ old (λ x mx gone e.
            All_at (λ (y : LogDefine). x.name ≢ y.name) new d (find-none x new gone) m (sym e))))
