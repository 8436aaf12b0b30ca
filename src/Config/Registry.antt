-- ===== src/Config/Registry.antt =====
-- `Config` of wb_server/config.h: the variables under their names.
pub mod Names
pub mod Invariant
pub mod Lookup
pub mod Visit
use cpp_wb_server.Common.{
  ℕ, suc, ◌≡◌, Bool, true, false, not, ◌&&◌, List, [], ◌∷◌, ◌++◌, Option, none, some, Text, codes,
  ◌==◌, ◌||◌, if◌then◌else◌, update,
}
use cpp_wb_server.Log.Level.{info, error, le}
use cpp_wb_server.Log.World.{World, System, Result, ok, ◌>>=◌}
use cpp_wb_server.Log.Manager.{find_name}
use cpp_wb_server.Config.Var
use cpp_wb_server.Config.Var.{Caster, ConfigVar, Places, log_line}

-- The types that the template is used at.
pub record Types : Type 1 where
  pub Ty : Type 0
  pub El : Ty → Type 0
  pub same : (s t : Ty) → Dec (s ≡ t)
  pub caster : (t : Ty) → Caster (El t)

abbrev pub Entry : Types → Type 0
Entry u = (t : u.Ty) × ConfigVar (u.El t)

-- `GetDatas()` holds addresses of the variables in `vars`; `world` is what they log to.
pub record Store (u : Types) : Type 0 where
  pub vars : ℕ → Entry u
  pub next : ℕ
  pub datas : List (Text × ℕ)
  pub world : World

abbrev pub member : ℕ → Text → Bool
member c [] = false
member c (b ∷ s) = c == b || member c s

-- The bytes that `find_first_not_of` passes.
abbrev pub name_bytes : Text
name_bytes = codes "abcdefghijklmnopqrstuvwxyz._0.123456789"

unfoldable pub is_name : Text → Bool
is_name [] = true
is_name (c ∷ s) = member c name_bytes && is_name s

-- What `lookup` with a default returns, or the `std::invalid_argument` that it throws.
pub data Answer : Type 0 where
  pointer : Option ℕ → Answer
  invalid_argument : Text → Answer

-- Whether `dynamic_pointer_cast` to the type succeeds.
abbrev pub has_type : (u : Types) → u.Ty → Entry u → Bool
has_type u t e = elim (u.same t e.0) [ yes _ ↦ true | no _ ↦ false ]

module _ (u : Types) (sys : System) (at : Places) where
  abbrev pub entry_to_string : Entry u → World → Result (World × Text)
  entry_to_string (t, x) w = Var.to_string sys at (u.caster t) x w

  abbrev pub mismatch_text : Text → Text → Text → Text → Text
  mismatch_text name type real shown =
      codes "lookup name = "
      ++ (name
          ++ (codes "exists but type not "
              ++ (type ++ (codes "real_type=" ++ (real ++ (codes " " ++ shown))))))

  -- The line on a variable of another type; what it prints is only computed where it is logged.
  unfoldable pub log_mismatch : u.Ty → Text → Entry u → World → Result World
  log_mismatch t name e w =
      if le (w.loggers w.root).level error
      then (do
        r ← entry_to_string e w
        log_line sys (at 394) error
            (mismatch_text name (u.caster t).type_name (u.caster e.0).type_name r.1) r.0)
      else ok w

  -- `new ConfigVar<T>` under its name.
  unfoldable pub create : (t : u.Ty) → Text → u.El t → Text → Store u → Store u
  create t name value description s = record s {
    vars = update s.vars s.next (t, Var.new name value description);
    next = suc s.next;
    datas = (name, s.next) ∷ s.datas;
  }

  -- `Config::lookup` with a default.
  unfoldable pub lookup_default :
      (t : u.Ty) → Text → u.El t → Text → Store u → Result (Store u × Answer)
  unfolding log_mismatch create
  lookup_default t name value description s = elim (find_name s.datas name) [
    | some l ↦
        if has_type u t (s.vars l)
        then (do
          w ←
              log_line sys (at 390) info (codes "lookup name = " ++ (name ++ codes " exists;"))
                s.world
          ok (record s { world = w }, pointer (some l)))
        else (do
          w ← log_mismatch t name (s.vars l) s.world
          ok (record s { world = w }, pointer none))
    | none ↦
        if not (is_name name)
        then (do
          w ← log_line sys (at 408) error (codes "lookup name invalid" ++ name) s.world
          ok (record s { world = w }, invalid_argument name))
        else ok (create t name value description s, pointer (some s.next))
  ]

module _ (u : Types) where
  -- `Config::lookup` of a name.
  unfoldable pub lookup : u.Ty → Text → Store u → Option ℕ
  lookup t name s = elim (find_name s.datas name) [
    | none ↦ none
    | some l ↦ if has_type u t (s.vars l) then some l else none
  ]

  -- `Config::lookup_base`.
  unfoldable pub lookup_base : Text → Store u → Option ℕ
  lookup_base name s = find_name s.datas name
