-- ===== src/Log/Listener/Updates.antt =====
-- The first loop of the listener in wb_server/log.cc.
use cpp_wb_server.Common.{
  Bool-cases, [], ◌∷◌, refl, All, ◌≡◌, sym, ◌∙◌, ap, inl, inr, Bool, true, not, List, none, some,
  Text, if◌then◌else◌, arith, Option-cases, length,
}
use cpp_wb_server.Log.World
use cpp_wb_server.Log.World.{World, System, Result, ok, ◌>>=◌}
use cpp_wb_server.Log.Manager.{get_logger, find_name}
use cpp_wb_server.Log.Define.Laws.{Distinct, Unnamed}
use cpp_wb_server.Log.Define.{LogDefine, eq_define, find}
use cpp_wb_server.Log.Manager.Invariant.{IsValid}
use cpp_wb_server.Log.Manager.Lookup.{find_name-get_logger}
use cpp_wb_server.Log.Listener.{update_all, redefine, update_define}
use cpp_wb_server.Log.Listener.Steps.{redefine-Defined}
use cpp_wb_server.Log.Listener.Adding.{HasTarget}
use cpp_wb_server.Log.Listener.Names.{KeepsName, other-KeepsName, Has, Has-kept}

-- As the definition says.
abbrev pub AsDefined : LogDefine → World.Logger → Type 0
AsDefined d x = (x.level ≡ d.level) × (length x.appenders ≡ length d.appenders)

-- The definition is new, or differs from the old one of its name.
unfoldable pub applies : List LogDefine → LogDefine → Bool
applies old d = elim (find d old) [ none ↦ true | some it ↦ not (eq_define d it) ]

update_define-applies :
    (sys : System) (old : List LogDefine) (d : LogDefine) (w : World)
    → update_define sys old d w ≡ (if applies old d then redefine sys d w else ok w)
unfolding update_define applies
update_define-applies sys old d w = elim (Option-cases (find d old)) [
  | inl h ↦ rw (h, update_define, applies)
  | inr (it, h) ↦ rw (h, update_define, applies)
]

abbrev pub HasTargets : LogDefine → Type 0
HasTargets d = All HasTarget d.appenders

-- What the first loop leaves behind.
pub record Updated (old ds : List LogDefine) (w w' : World) : Type 0 where
  pub valid : IsValid w'
  pub kept : (n : Text) → Unnamed n ds → KeepsName n w w'
  pub defined : All (λ (d : LogDefine). applies old d ≡ true → Has d.name (AsDefined d) w') ds

pub KeepsName-refl : (n : Text) (w : World) → KeepsName n w w
KeepsName-refl n w l h = (h, refl)

pub KeepsName-trans :
    (n : Text) (u v w : World) → KeepsName n u v → KeepsName n v w → KeepsName n u w
KeepsName-trans n u v w p q l h = let (a, b) = p l h in let (c, d) = q l a in (c, d ∙ b)

update_define-Updated :
    (sys : System) (old : List LogDefine) (d : LogDefine) (w : World)
    → HasTargets d
    → IsValid w
    → (w' : World) × (update_define sys old d w ≡ ok w') × Updated old (d ∷ []) w w'
update_define-Updated sys old d w t v = elim (Bool-cases (applies old d)) [
  | inl on ↦
      let (w', e, v', touched, def) = redefine-Defined sys d w t v in
      (
        w',
        rw (update_define-applies sys old d w, on) e,
        record {
          valid = v';
          kept = λ n u. other-KeepsName d.name n w w' v (λ e. u.0 (sym e)) touched;
          defined = (
            λ h. (
              (get_logger d.name w).0,
              ap (λ ns. find_name ns d.name) touched.names_kept ∙ find_name-get_logger d.name w,
              (def.level_set, def.appenders_set),
            ),
            tt,
          );
        },
      )
  | inr off ↦ (
    w,
    rw (update_define-applies sys old d w, off),
    record {
      valid = v;
      kept = λ n u. KeepsName-refl n w;
      defined = (λ h. absurd (ground (arith, h, off)), tt);
    },
  )
]

pub update_all-Updated :
    (sys : System) (old ds : List LogDefine) (w : World)
    → All HasTargets ds
    → Distinct ds
    → IsValid w
    → (w' : World) × (update_all sys old ds w ≡ ok w') × Updated old ds w w'
unfolding update_all
update_all-Updated sys old [] w t s v =
    (w, refl, record { valid = v; kept = λ n u. KeepsName-refl n w; defined = tt })
update_all-Updated sys old (d ∷ ds) w t s v =
    let (w₁, e₁, p) = update_define-Updated sys old d w t.0 v in
    let (w₂, e₂, q) = update_all-Updated sys old ds w₁ t.1 s.1 p.valid in
    (
      w₂,
      rw e₁ e₂,
      record {
        valid = q.valid;
        kept = λ n u. KeepsName-trans n w w₁ w₂ (p.kept n (u.0, tt)) (q.kept n u.1);
        defined = (
          λ h. Has-kept d.name (AsDefined d) w₁ w₂ (q.kept d.name s.0) (p.defined.0 h),
          q.defined,
        );
      },
    )
