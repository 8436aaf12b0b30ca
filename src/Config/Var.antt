-- ===== src/Config/Var.antt =====
-- `ConfigVarBase` and `ConfigVar` of wb_server/config.h.
pub mod Listeners
pub mod Calls
use cpp_wb_server.Common.{
  ℕ, ◌+◌, ◌%◌, ◌^◌, Bool, false, List, [], ◌∷◌, ◌++◌, map, Option, none, some, Text, codes,
  to_lower, ltb, ◌==◌, if◌then◌else◌,
}
use cpp_wb_server.Yaml.{Outcome, gave, threw}
use cpp_wb_server.Log.Level.{Level, error}
use cpp_wb_server.Log.Event.{Site}
use cpp_wb_server.Log.Event
use cpp_wb_server.Log.World.{World, System, Result, ok, ◌>>=◌, emit_all}
use cpp_wb_server.Log.Logger
use cpp_wb_server.Log.Define.Parse.{Run}

-- What a call leaves: the loggers, and the `what()` of a `std::exception` that it throws.
abbrev pub Left : Type 0
Left = World × Option Text

-- `on_change_cb`, on the old and the new value. It does not use the variable itself.
abbrev pub Callback : Type 0 → Type 0
Callback T = T → T → World → Result Left

-- What the template takes from its arguments: `operator==`, `typeid(T).name()`, `FromStr`, `ToStr`.
pub record Caster (T : Type 0) : Type 0 where
  pub equal : T → T → Bool
  pub type_name : Text
  pub from_str : Text → Run T
  pub to_str : T → Outcome Text

-- `m_cbs` holds its callbacks in the order of their keys.
pub record ConfigVar (T : Type 0) : Type 0 where
  pub name : Text
  pub description : Text
  pub value : T
  pub cbs : List (ℕ × Callback T)

-- What the macros of wb_server/log.h take from a line of the file.
abbrev pub Places : Type 0
Places = ℕ → Site

-- `YGJ_LOG_LEVEL(YGJ_LOG_ROOT(), level) << text`.
unfoldable pub log_line : System → Site → Level → Text → World → Result World
log_line sys site level text w =
    Logger.log_macro 2 sys (Event.write (Event.new site w.root level) text) w

module _ {T : Type 0} where
  -- `ConfigVar::ConfigVar`.
  abbrev pub new : Text → T → Text → ConfigVar T
  new name value description = record {
    name = map to_lower name;
    description = description;
    value = value;
    cbs = [];
  }

  -- The loop of `set_value`: an exception ends it.
  unfoldable pub run_callbacks : List (ℕ × Callback T) → T → T → World → Result Left
  run_callbacks [] old new w = ok (w, none)
  run_callbacks ((k, cb) ∷ cbs) old new w = do
    r ← cb old new w
    elim r.1 [ some e ↦ ok r | none ↦ run_callbacks cbs old new r.0 ]

  -- `ConfigVar::set_value`.
  unfoldable pub set_value : Caster T → T → ConfigVar T → World → Result (ConfigVar T × Left)
  unfolding run_callbacks
  set_value c v x w = if c.equal v x.value then ok (x, (w, none)) else (do
    r ← run_callbacks x.cbs x.value v w
    ok (elim r.1 [ none ↦ record x { value = v } | some _ ↦ x ], r))

  abbrev pub from_string_text : Caster T → Text → Text → Text
  from_string_text c what val =
      codes "ConfigVar to string exception"
      ++ (what ++ (codes " convert: string to" ++ (c.type_name ++ (codes " - " ++ val))))

  -- The `catch` of `from_string`.
  abbrev pub caught :
      System → Places → Caster T → Text → ConfigVar T × Left → Result (ConfigVar T × World)
  caught sys at c val (x, (w, none)) = ok (x, w)
  caught sys at c val (x, (w, some what)) = do
    w' ← log_line sys (at 311) error (from_string_text c what val) w
    ok (x, w')

  -- `ConfigVar::from_string`, with what it returns.
  unfoldable pub from_string :
      System → Places → Caster T → Text → ConfigVar T → World → Result (ConfigVar T × World × Bool)
  unfolding set_value log_line
  from_string sys at c val x w = do
    let r = c.from_str val
    let w₁ = emit_all w r.printed
    l ← elim r.outcome [ threw what ↦ ok (x, (w₁, some what)) | gave v ↦ set_value c v x w₁ ]
    s ← caught sys at c val l
    ok (s.0, s.1, false)

  abbrev pub to_string_text : Caster T → Text → Text
  to_string_text c what =
      codes "ConfigVar to string exception"
      ++ (what ++ (codes " convert:" ++ (c.type_name ++ codes " to string;")))

  -- `ConfigVar::to_string`.
  unfoldable pub to_string :
      System → Places → Caster T → ConfigVar T → World → Result (World × Text)
  unfolding log_line
  to_string sys at c x w = elim (c.to_str x.value) [
    | gave t ↦ ok (w, t)
    | threw what ↦ do w' ← log_line sys (at 298) error (to_string_text c what) w; ok (w', [])
  ]

  -- `m_cbs[key] = cb`.
  unfoldable pub put_callback : ℕ → Callback T → List (ℕ × Callback T) → List (ℕ × Callback T)
  put_callback key cb [] = (key, cb) ∷ []
  put_callback key cb ((k, c) ∷ cbs) =
      if ltb key k
      then (key, cb) ∷ (k, c) ∷ cbs
      else if key == k
      then (key, cb) ∷ cbs
      else (k, c) ∷ put_callback key cb cbs

  -- `m_cbs.erase(key)`.
  unfoldable pub erase_callback : ℕ → List (ℕ × Callback T) → List (ℕ × Callback T)
  erase_callback key [] = []
  erase_callback key ((k, c) ∷ cbs) = if key == k then cbs else (k, c) ∷ erase_callback key cbs

  unfoldable pub find_callback : ℕ → List (ℕ × Callback T) → Option (Callback T)
  find_callback key [] = none
  find_callback key ((k, c) ∷ cbs) = if key == k then some c else find_callback key cbs

  -- `ConfigVar::add_listener` on the counter `s_fun_id` of the type, whose new value it returns.
  unfoldable pub add_listener : ℕ → Callback T → ConfigVar T → ℕ × ConfigVar T
  unfolding put_callback
  add_listener fun_id cb x =
      let id = (fun_id + 1) % 2 ^ 64 in (id, record x { cbs = put_callback id cb x.cbs })

  -- `ConfigVar::del_lietener`.
  unfoldable pub del_listener : ℕ → ConfigVar T → ConfigVar T
  unfolding erase_callback
  del_listener key x = record x { cbs = erase_callback key x.cbs }

  -- `ConfigVar::get_listener`.
  unfoldable pub get_listener : ℕ → ConfigVar T → Option (Callback T)
  unfolding find_callback
  get_listener key x = find_callback key x.cbs

  -- `ConfigVar::clear_listener`.
  unfoldable pub clear_listener : ConfigVar T → ConfigVar T
  clear_listener x = record x { cbs = [] }
