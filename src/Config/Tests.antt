-- ===== src/Config/Tests.antt =====
-- The configuration code on fixed inputs, and the theorems applied at inputs.
mod Values
mod Casts
use cpp_wb_server.Yaml.{Outcome, gave, Yaml}
use cpp_wb_server.Log.Level
use cpp_wb_server.Log.Level.{unknow}
use cpp_wb_server.Log.Define.{insert, LogDefine}
use cpp_wb_server.Log.Define.Laws.{Sorted}
use cpp_wb_server.Log.Define.Plain.{IsPlain, parse-IsPlain}
use cpp_wb_server.Log.Define.Parse.{parse}
use cpp_wb_server.Common.{
  ◌+◌, Bool-cases, subst, ℕ, zero, suc, ◌<◌, ◌≡◌, ◌⊎◌, refl, inl, inr, true, false, List, [], ◌∷◌,
  ◌++◌, Option, none, some, Text, codes, eq_text, eq_text_iff, ◌==◌, if◌then◌else◌, arith, All,
}
use cpp_wb_server.Yaml.{Outcome, gave, threw, Yaml}
use cpp_wb_server.Log.Level.{debug, warn}
use cpp_wb_server.Log.World.{World, System, ok, console}
use cpp_wb_server.Log.Logger.Delivery.{append_output}
use cpp_wb_server.Log.Logger.Frame.{Same}
use cpp_wb_server.Log.Manager.{boot, find_name}
use cpp_wb_server.Log.Manager.Invariant.{IsValid}
use cpp_wb_server.Log.Manager.Operations.{boot-IsValid}
use cpp_wb_server.Log.Define.{AppenderDefine, LogDefine}
use cpp_wb_server.Config.Var
use cpp_wb_server.Config.Var.{
  Callback, Caster, ConfigVar, Places, set_value, from_string, add_listener, del_listener,
  get_listener,
}
use cpp_wb_server.Config.Var.Listeners.{Keys, listeners}
use cpp_wb_server.Config.Var.Calls.{Settled, recorder, set_value-calls, from_string-Settled}
use cpp_wb_server.Config.Registry.{Types, Store, Answer, lookup_default, lookup, is_name}
use cpp_wb_server.Config.Registry.Invariant.{Allowed, IsSound}
use cpp_wb_server.Config.Registry.Lookup.{later, Answered, lookup_default-lookup}
use cpp_wb_server.Config.Load.{list_all_member, load_from_yaml}
use cpp_wb_server.Config.Load.Members.{
  IsTree, Below, list_all_member-Below, leaf, branch, below_nil, below_cons,
}
use cpp_wb_server.Config.Load.Steps.{SameKind}
use cpp_wb_server.Config.Load.Loading.{load_from_yaml-Kept, load_from_yaml-Holds, Holds}
use cpp_wb_server.Config.Logs.{logs_caster, g_log_defines}
use cpp_wb_server.Config.Logs.Loading.{with_appenders, from_string-logs, set_value-ignores}

abbrev the_site : Places
the_site line = record {
  file = codes "config.cc";
  line = line;
  thread = 7;
  fiber_id = 0;
  time = 12;
  thread_name = codes "main";
}

abbrev the_system : System
the_system = record { now = 5; can_open = λ f. true; can_write = λ f. true; print_time = λ f t. f }

-- A variable of texts, which stand for themselves.
abbrev text_caster : Caster Text
text_caster = record {
  equal = eq_text;
  type_name = codes "string";
  from_str = λ s. record { printed = []; outcome = gave s };
  to_str = gave;
}

abbrev the_types : Types
the_types = record { Ty = Unit; El = λ t. Text; same = λ s t. yes refl; caster = λ t. text_caster }

abbrev any_text : Allowed the_types
any_text t v = Unit

abbrev empty_store : Store the_types
empty_store = record { vars = λ l. (tt, Var.new [] [] []); next = 0; datas = []; world = boot }

empty-IsSound : IsSound the_types any_text empty_store
unfolding find_name
empty-IsSound = record {
  named = λ n l h. absurd (ground (arith, h));
  fine = λ l h. absurd (omega (arith, h));
  world_valid = boot-IsValid;
}

lookup_default-lookup_example :
    (s' : Store the_types) × (a : Answer) × (lookup_default the_types the_system the_site tt
        (codes "fiber.size")
        (codes "1")
        []
        empty_store
      ≡ ok (s', a))
    × IsSound the_types any_text s'
    × (lookup the_types tt (codes "fiber.size") s' ≡ later a)
    × Answered the_types tt (codes "fiber.size") (codes "1") [] empty_store s' a
lookup_default-lookup_example =
    lookup_default-lookup the_types any_text the_system the_site tt (codes "fiber.size") (codes "1")
      [] empty_store empty-IsSound tt

-- `{Size: 7}`: the root is 0, and the scalar is 1.
abbrev the_entries : ℕ → Option (List (Text × ℕ))
the_entries zero = some ((codes "Size", 1) ∷ [])
the_entries (suc n) = none

abbrev the_yaml : Yaml
the_yaml = record {
  Node = ℕ;
  load = λ s. gave 0;
  size = λ n. 0;
  at = λ n i. 1;
  field = λ n k. gave none;
  as_text = λ n. gave (codes "7");
  scalar = λ n. if n == 1 then some (codes "7") else none;
  entries = the_entries;
  show = λ n. codes "Size: 7";
}

abbrev the_height : ℕ → ℕ
the_height zero = 1
the_height (suc n) = 0

the-IsTree : IsTree the_yaml the_height
the-IsTree zero es h =
    subst (All (λ (e : Text × ℕ). the_height e.1 < 1)) (some-inj h) (omega arith, tt)
  where
    some-inj : {a b : List (Text × ℕ)} → some a ≡ some b → a ≡ b
    some-inj h = cc
the-IsTree (suc n) es h = absurd (ground (arith, h))

list_all_member-Below_example :
    (w' : World) × (ms : List (Text × ℕ)) × (list_all_member the_yaml the_system the_site 2 [] 0
        boot
      ≡ ok (w', ms))
    × Same boot w'
    × Below the_yaml the_system the_site [] 0 ms
list_all_member-Below_example =
    list_all_member-Below the_yaml the_system the_site the_height 0 boot the-IsTree boot-IsValid

abbrev size_store : Store the_types
size_store = record empty_store {
  vars = λ l. (tt, Var.new (codes "size") [] []);
  next = 1;
  datas = (codes "size", 0) ∷ [];
}

size-IsSound : IsSound the_types any_text size_store
unfolding find_name is_name
size-IsSound = record {
  named = λ n l h. elim (Bool-cases (eq_text (codes "size") n)) [
    | inl e ↦
        let same : codes "size" ≡ n = (eq_text_iff (codes "size") n).0 e in
        (ground (arith, h, e), same, subst (λ m. is_name m ≡ true) same refl)
    | inr e ↦ absurd (ground (arith, h, e))
  ];
  fine = λ l h. (tt, tt);
  world_valid = boot-IsValid;
}

load_from_yaml-Kept_example :
    (s' : Store the_types) × (load_from_yaml the_yaml the_system the_site the_types 2 0 size_store
      ≡ ok s')
    × IsSound the_types any_text s'
    × (s'.datas ≡ size_store.datas)
    × ((l : ℕ) → SameKind the_types (size_store.vars l) (s'.vars l))
load_from_yaml-Kept_example =
    load_from_yaml-Kept the_yaml the_system the_site the_types any_text the_height 0 size_store
      the-IsTree (λ t val v h. tt) size-IsSound

load_from_yaml-Holds_example :
    (s' : Store the_types) × (load_from_yaml the_yaml the_system the_site the_types 2 0 size_store
      ≡ ok s')
    × Holds the_yaml the_system the_site the_types any_text (λ t val v h. tt) 0 tt (codes "7") s'
load_from_yaml-Holds_example =
    load_from_yaml-Holds the_yaml the_system the_site the_types any_text the_height 0 size_store
      (([], 0) ∷ []) [] (codes "Size") 1 0 tt (codes "7") (λ t val v h. tt) the-IsTree size-IsSound
      (branch refl (below_cons (leaf refl) below_nil)) refl found
      (Var.new (codes "size") [] [], refl, refl) refl (λ a b h. (eq_text_iff a b).0 h) tt
  where
    found : find_name size_store.datas (codes "size") ≡ some 0
    found = unfold find_name in refl
