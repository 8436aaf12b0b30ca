-- ===== src/Config/Load.antt =====
-- `list_all_menmber` and `Config::load_from_yaml` of wb_server/config.cc.
pub mod Members
pub mod Steps
pub mod Loading
use cpp_wb_server.Common.{
  ℕ, zero, suc, ◌++◌, List, [], ◌∷◌, map, Option, none, some, not, Text, codes, is_empty, to_lower,
  if◌then◌else◌, update,
}
use cpp_wb_server.Yaml.{Yaml}
use cpp_wb_server.Log.Level.{error}
use cpp_wb_server.Log.World.{World, System, Result, ok, no_fuel, ◌>>=◌}
use cpp_wb_server.Config.Var
use cpp_wb_server.Config.Var.{Places, log_line}
use cpp_wb_server.Config.Registry.{Types, Store, Entry, is_name, lookup_base}

module _ (y : Yaml) (sys : System) (at : Places) where
  abbrev pub Members : Type 0
  Members = List (Text × y.Node)

  abbrev pub join : Text → Text → Text
  join prefix key = if is_empty prefix then key else prefix ++ (codes "." ++ key)

  -- The first statement of `list_all_menmber`.
  unfoldable pub check_name : Text → y.Node → World → Result World
  check_name prefix node w =
      if not (is_name prefix)
      then log_line sys (at 20) error
          (codes "Config invalid name: " ++ (prefix ++ (codes " : " ++ y.show node))) w
      else ok w

  -- The loop over the entries of a map, with the recursive call as `visit`.
  unfoldable pub each_entry :
      (Text → y.Node → World → Result (World × Members))
      → Text
      → List (Text × y.Node)
      → World
      → Result (World × Members)
  each_entry visit prefix [] w = ok (w, [])
  each_entry visit prefix ((k, n) ∷ es) w = do
    r ← visit (join prefix k) n w
    rest ← each_entry visit prefix es r.0
    ok (rest.0, r.1 ++ rest.1)

  -- `list_all_menmber`, with what it appends to `output`.
  unfoldable pub list_all_member : ℕ → Text → y.Node → World → Result (World × Members)
  unfolding check_name each_entry
  list_all_member zero prefix node w = no_fuel
  list_all_member (suc fuel) prefix node w = do
    w₁ ← check_name prefix node w
    elim (y.entries node) [
      | none ↦ ok (w₁, (prefix, node) ∷ [])
      | some es ↦ do
        r ← each_entry (list_all_member fuel) prefix es w₁
        ok (r.0, (prefix, node) ∷ r.1)
    ]

  -- `Scalar()` of a scalar, and what `<<` prints of any other node.
  abbrev pub node_text : y.Node → Text
  node_text node = elim (y.scalar node) [ some t ↦ t | none ↦ y.show node ]

  module _ (u : Types) where
    -- `var->from_string`.
    unfoldable pub entry_from_string : ℕ → Text → Store u → Result (Store u)
    entry_from_string l val s = do
      r ← Var.from_string sys at (u.caster (s.vars l).0) val (s.vars l).1 s.world
      ok (record s { vars = update s.vars l ((s.vars l).0, r.0); world = r.1 })

    -- The body of the loop of `load_from_yaml`.
    unfoldable pub load_member : Text → y.Node → Store u → Result (Store u)
    unfolding entry_from_string
    load_member prefix node s =
        if is_empty prefix then ok s else elim (lookup_base u (map to_lower prefix) s) [
          | none ↦ ok s
          | some l ↦ entry_from_string l (node_text node) s
        ]

    unfoldable pub load_members : Members → Store u → Result (Store u)
    unfolding load_member
    load_members [] s = ok s
    load_members ((p, n) ∷ ms) s = do s' ← load_member p n s; load_members ms s'

    -- `Config::load_from_yaml`.
    unfoldable pub load_from_yaml : ℕ → y.Node → Store u → Result (Store u)
    unfolding list_all_member load_members
    load_from_yaml fuel root s = do
      r ← list_all_member fuel [] root s.world
      load_members r.1 (record s { world = r.0 })
