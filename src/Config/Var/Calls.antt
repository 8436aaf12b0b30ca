-- ===== src/Config/Var/Calls.antt =====
-- What `set_value` and `from_string` of a `ConfigVar` (wb_server/config.h) do.
use cpp_wb_server.Common.{
  ℕ, ◌≡◌, refl, sym, ap, ◌∙◌, ◌⊎◌, inl, inr, false, List, [], ◌∷◌, map, append_assoc, append-nil,
  none, some, Text, if◌then◌else◌, Bool-cases, All,
}
use cpp_wb_server.Yaml.{Outcome, gave, threw}
use cpp_wb_server.Log.Level.{Level, error}
use cpp_wb_server.Log.Event.{Site, Event}
use cpp_wb_server.Log.Event
use cpp_wb_server.Log.World.{World, System, Output, ok, emit, emit_all}
use cpp_wb_server.Log.Logger.Frame.{Same, emit_all-Same}
use cpp_wb_server.Log.Logger.Total.{log-IsValid}
use cpp_wb_server.Log.Logger.Delivery.{log_macro-log, append_output}
use cpp_wb_server.Log.Manager.Invariant.{IsValid, Same-IsValid}
use cpp_wb_server.Config.Var.{
  Left, Callback, Caster, ConfigVar, Places, log_line, run_callbacks, set_value, from_string,
  from_string_text, caught,
}

pub log_line-Same :
    (sys : System) (site : Site) (level : Level) (text : Text) (w : World)
    → IsValid w
    → (w' : World) × (log_line sys site level text w ≡ ok w') × Same w w'
unfolding log_line
log_line-Same sys site level text w v =
    let e : Event = Event.write (Event.new site w.root level) text in
    let (w', r, s, _) = log-IsValid sys e.logger e.level e w v v.root_exists in
    (w', log_macro-log 1 sys e w ∙ r, s)

module _ {T : Type 0} where
  -- A callback that writes one line.
  abbrev pub recorder : ℕ × (T → T → Output) → ℕ × Callback T
  recorder (k, f) = (k, λ old new w. ok (emit w (f old new), none))

  run_recorders :
      (fs : List (ℕ × (T → T → Output))) (old new : T) (w : World)
      → run_callbacks (map recorder fs) old new w
        ≡ ok (append_output w (map (λ (f : ℕ × (T → T → Output)). f.1 old new) fs), none)
  unfolding run_callbacks
  run_recorders [] old new w =
      ap (λ o. ok (record w { output = o }, none)) (sym (append-nil w.output))
  run_recorders ((k, f) ∷ fs) old new w =
      run_recorders fs old new (emit w (f old new))
      ∙ ap (λ o. ok (record w { output = o }, none)) (append_assoc w.output (f old new ∷ []) _)

  -- Where every callback writes one line and returns, a value that differs is stored after every
  -- callback has been called once, in the order of the ids, with the old and the new value; for
  -- an equal value nothing happens.
  pub set_value-calls :
      (c : Caster T) (fs : List (ℕ × (T → T → Output))) (v : T) (x : ConfigVar T) (w : World)
      → x.cbs ≡ map recorder fs
      → set_value c v x w
        ≡ ok (
            if c.equal v x.value then (x, (w, none)) else (
              record x { value = v },
              (append_output w (map (λ (f : ℕ × (T → T → Output)). f.1 x.value v) fs), none),
            ))
  unfolding set_value
  set_value-calls c fs v x w h = elim (Bool-cases (c.equal v x.value)) [
    | inl same ↦ rw same
    | inr differs ↦
        rw (differs, ap (λ cs. run_callbacks cs x.value v w) h ∙ run_recorders fs x.value v w)
  ]

  -- The callback returns, with the loggers in a valid state, on values that are allowed.
  abbrev pub Behaves : (T → Type 0) → Callback T → Type 0
  Behaves P cb =
      (old new : T) (w : World)
      → P old
      → P new
      → IsValid w
      → (r : Left) × (cb old new w ≡ ok r) × IsValid r.0

  -- The loop returns in a valid state.
  abbrev Returns : List (ℕ × Callback T) → T → T → World → Type 0
  Returns cbs old new w = (r : Left) × (run_callbacks cbs old new w ≡ ok r) × IsValid r.0

  Returns-cons :
      (k : ℕ) (cb : Callback T) (cbs : List (ℕ × Callback T)) (old new : T) (w : World) (r : Left)
      → cb old new w ≡ ok r
      → IsValid r.0
      → Returns cbs old new r.0
      → Returns ((k, cb) ∷ cbs) old new w
  unfolding run_callbacks
  Returns-cons k cb cbs old new w (w', some e) h v rest = ((w', some e), rw h, v)
  Returns-cons k cb cbs old new w (w', none) h v (r, h', vr) = (r, rw (h, run_callbacks) h', vr)

  run_callbacks-Behaves :
      (P : T → Type 0) (cbs : List (ℕ × Callback T)) (old new : T) (w : World)
      → All (λ (c : ℕ × Callback T). Behaves P c.1) cbs
      → P old
      → P new
      → IsValid w
      → Returns cbs old new w
  unfolding run_callbacks
  run_callbacks-Behaves P [] old new w b p q v = ((w, none), refl, v)
  run_callbacks-Behaves P ((k, cb) ∷ cbs) old new w b p q v =
      let (r, h, v') = b.0 old new w p q v in
      Returns-cons k cb cbs old new w r h v' (run_callbacks-Behaves P cbs old new r.0 b.1 p q v')

  -- Nothing has changed, or the value that the text stands for has been stored.
  abbrev pub Settled : Caster T → Text → ConfigVar T → ConfigVar T → Type 0
  Settled c val x x' =
      (x' ≡ x) ⊎ ((v : T) × ((c.from_str val).outcome ≡ gave v) × (x' ≡ record x { value = v }))

  set_value-Behaves :
      (P : T → Type 0) (c : Caster T) (v : T) (x : ConfigVar T) (w : World)
      → All (λ (d : ℕ × Callback T). Behaves P d.1) x.cbs
      → P x.value
      → P v
      → IsValid w
      → (r : ConfigVar T × Left) × (set_value c v x w ≡ ok r)
        × IsValid r.1.0
        × ((r.0 ≡ x) ⊎ (r.0 ≡ record x { value = v }))
  unfolding set_value
  set_value-Behaves P c v x w b p q u = elim (Bool-cases (c.equal v x.value)) [
    | inl same ↦ ((x, (w, none)), rw same, u, inl refl)
    | inr differs ↦ go differs (run_callbacks-Behaves P x.cbs x.value v w b p q u)
  ]
    where
      go :
          c.equal v x.value ≡ false
          → (r : Left) × (run_callbacks x.cbs x.value v w ≡ ok r) × IsValid r.0
          → (r : ConfigVar T × Left) × (set_value c v x w ≡ ok r)
            × IsValid r.1.0
            × ((r.0 ≡ x) ⊎ (r.0 ≡ record x { value = v }))
      go differs ((w', none), h, v') =
          ((record x { value = v }, (w', none)), unfold set_value in rw (differs, h), v', inr refl)
      go differs ((w', some e), h, v') =
          ((x, (w', some e)), unfold set_value in rw (differs, h), v', inl refl)

  caught-returns :
      (sys : System) (at : Places) (c : Caster T) (val : Text) (r : ConfigVar T × Left)
      → IsValid r.1.0
      → (w' : World) × (caught sys at c val r ≡ ok (r.0, w')) × IsValid w'
  caught-returns sys at c val (x, (w, none)) v = (w, refl, v)
  caught-returns sys at c val (x, (w, some e)) v =
      let (w', h, s) = log_line-Same sys (at 311) error (from_string_text c e val) w v in
      (w', rw h, Same-IsValid s v)

  -- What `from_string` did. Where the conversion threw, it has changed nothing but for the line that
  -- it logged; otherwise it has called `set_value`, and what that made of the variable stays.
  pub data Answers (sys : System) (at : Places) (c : Caster T) (val : Text) (x : ConfigVar T)
      (w : World) (x' : ConfigVar T) (w' : World) : Type 0 where
    refused :
        (e : Text)
        → (c.from_str val).outcome ≡ threw e
        → x' ≡ x
        → log_line sys
            (at 311)
            error
            (from_string_text c e val)
            (emit_all w (c.from_str val).printed)
          ≡ ok w'
        → Answers sys at c val x w x' w'
    set :
        (v : T) (l : Left)
        → (c.from_str val).outcome ≡ gave v
        → set_value c v x (emit_all w (c.from_str val).printed) ≡ ok (x', l)
        → caught sys at c val (x', l) ≡ ok (x', w')
        → Answers sys at c val x w x' w'

  -- Where the text stands for allowed values only, the value is allowed, the callbacks return on
  -- allowed values with the loggers valid, and the loggers are valid: `from_string` returns `false`,
  -- with the loggers valid, and the variable is unchanged or has the value that the text stands for.
  -- No `std::exception` leaves it. Where the conversion throws one, its `what()` is logged and the
  -- variable is unchanged; otherwise `set_value` is called, and what it throws is logged.
  pub from_string-Settled :
      (P : T → Type 0) (sys : System) (at : Places) (c : Caster T) (val : Text) (x : ConfigVar T)
      (w : World)
      → ((v : T) → (c.from_str val).outcome ≡ gave v → P v)
      → All (λ (d : ℕ × Callback T). Behaves P d.1) x.cbs
      → P x.value
      → IsValid w
      → (x' : ConfigVar T) × (w' : World) × (from_string sys at c val x w ≡ ok (x', w', false))
        × Settled c val x x'
        × IsValid w'
        × Answers sys at c val x w x' w'
  unfolding from_string
  from_string-Settled P sys at c val x w good b p v = go (c.from_str val).outcome refl
    where
      w₁ : World
      w₁ = emit_all w (c.from_str val).printed

      v₁ : IsValid w₁
      v₁ = Same-IsValid (emit_all-Same w _) v

      go :
          (o : Outcome T)
          → (c.from_str val).outcome ≡ o
          → (x' : ConfigVar T) × (w' : World) × (from_string sys at c val x w ≡ ok (x', w', false))
            × Settled c val x x'
            × IsValid w'
            × Answers sys at c val x w x' w'
      go (threw e) h =
          let (w', r, k) = log_line-Same sys (at 311) error (from_string_text c e val) w₁ v₁ in
          (
            x,
            w',
            unfold from_string in rw (h, from_string) (rw r),
            inl refl,
            Same-IsValid k v₁,
            refused e h refl r,
          )
      go (gave y) h =
          let (l, k, vl, s) = set_value-Behaves P c y x w₁ b p (good y h) v₁ in
          let (w', r, v') = caught-returns sys at c val l vl in
          (
            l.0,
            w',
            unfold from_string in rw (h, from_string) (rw (k, r)),
            elim s [ inl e ↦ inl e | inr e ↦ inr (y, h, e) ],
            v',
            set y l.1 h k r,
          )
