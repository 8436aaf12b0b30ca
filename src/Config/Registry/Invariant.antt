-- ===== src/Config/Registry/Invariant.antt =====
-- What every call on the registry of wb_server/config.h keeps.
use cpp_wb_server.Common.{
  ℕ, ◌≡◌, refl, subst, ◌∙◌, ◌<◌, inl, inr, true, [], some, Text, arith, Bool-cases, All,
  update_cases,
}
use cpp_wb_server.Yaml.{gave, threw}
use cpp_wb_server.Log.Level.{error, le}
use cpp_wb_server.Log.World.{World, System, ok}
use cpp_wb_server.Log.Logger.Frame.{Same, Same-refl, Same-trans}
use cpp_wb_server.Log.Manager.{find_name}
use cpp_wb_server.Log.Manager.Invariant.{IsValid, Same-IsValid}
use cpp_wb_server.Log.Manager.Operations.{find_name-cons}
use cpp_wb_server.Config.Var
use cpp_wb_server.Config.Var.{Callback, ConfigVar, Places, log_line}
use cpp_wb_server.Config.Var.Calls.{Behaves, log_line-Same}
use cpp_wb_server.Config.Registry.{
  Types, Entry, Store, is_name, log_mismatch, create, mismatch_text,
}
use cpp_wb_server.Config.Registry.Names.{is_name-lower}

-- Which values of a type a variable may hold.
abbrev pub Allowed : Types → Type 1
Allowed u = (t : u.Ty) → u.El t → Type 0

-- The value is allowed, and the callbacks behave on allowed values.
abbrev pub IsFine : (u : Types) → Allowed u → Entry u → Type 0
IsFine u P (t, x) = P t x.value × All (λ (d : ℕ × Callback (u.El t)). Behaves (P t) d.1) x.cbs

abbrev pub name_of : (u : Types) → Entry u → Text
name_of u (t, x) = x.name

-- Every name leads to a variable that is called so, and is one that `lookup` takes.
pub record IsSound (u : Types) (P : Allowed u) (s : Store u) : Type 0 where
  pub named :
      (n : Text) (l : ℕ)
      → find_name s.datas n ≡ some l
      → (l < s.next) × (name_of u (s.vars l) ≡ n) × (is_name n ≡ true)
  pub fine : (l : ℕ) → l < s.next → IsFine u P (s.vars l)
  pub world_valid : IsValid s.world

module _ (u : Types) (P : Allowed u) where
  pub with_world :
      (s : Store u) (w : World) → IsSound u P s → IsValid w → IsSound u P (record s { world = w })
  with_world s w i v = record { named = i.named; fine = i.fine; world_valid = v }

  pub create-IsSound :
      (t : u.Ty) (name : Text) (value : u.El t) (d : Text) (s : Store u) (sys : System)
      (at : Places)
      → IsSound u P s
      → P t value
      → is_name name ≡ true
      → IsSound u P (create u sys at t name value d s)
  unfolding create
  create-IsSound t name value d s sys at i p ok_name = record {
    named = λ n l h. elim (find_name-cons name s.next s.datas n h) [
      | inl here ↦ (
        omega (arith, here.1),
        update_cases (λ e. name_of u e ≡ n) s.vars s.next l _
            (λ e. is_name-lower name ok_name ∙ here.0) (λ ne. absurd (ne here.1)),
        subst (λ m. is_name m ≡ true) here.0 ok_name,
      )
      | inr there ↦
          let (a, b, c) = i.named n l there in
          (
            omega (arith, a),
            update_cases (λ e. name_of u e ≡ n) s.vars s.next l _ (λ e. absurd (omega (arith, a)))
                (λ ne. b),
            c,
          )
    ];
    fine = λ l h.
        update_cases (λ e. IsFine u P e) s.vars s.next l _ (λ e. (p, tt))
          (λ ne. i.fine l (omega arith));
    world_valid = i.world_valid;
  }

  pub log_mismatch-Same :
      (sys : System) (at : Places) (t : u.Ty) (name : Text) (e : Entry u) (w : World)
      → IsValid w
      → (w' : World) × (log_mismatch u sys at t name e w ≡ ok w') × Same w w'
  unfolding log_mismatch
  log_mismatch-Same sys at t name (t', x) w v =
      elim (Bool-cases (le (w.loggers w.root).level error)) [
        | inr off ↦ (w, rw off, Same-refl w)
        | inl on ↦
            let (r, h, s) = shown ((u.caster t').to_str x.value) refl in
            let (w', k, s') =
              log_line-Same sys (at 394) error
                (mismatch_text u sys at name (u.caster t).type_name (u.caster t').type_name r.1) r.0
                (Same-IsValid s v) in
            (w', rw (on, h) k, Same-trans s s')
      ]
    where
      shown :
          (o : _)
          → (u.caster t').to_str x.value ≡ o
          → (r : World × Text) × (Var.to_string sys at (u.caster t') x w ≡ ok r) × Same w r.0
      shown (gave text) h = ((w, text), unfold Var.to_string in rw (h, Var.to_string), Same-refl w)
      shown (threw what) h =
          let (w', k, s) =
            log_line-Same sys (at 298) error (Var.to_string_text (u.caster t') what) w v in
          ((w', []), unfold Var.to_string in rw (h, Var.to_string) (rw k), s)
