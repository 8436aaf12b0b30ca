-- ===== src/Log/Manager/Lookup.antt =====
-- `LoggerManager::get_logger` of wb_server/log.cc as a map from names to loggers.
use cpp_wb_server.Common.{
  ℕ, ◌≡◌, ◌≢◌, sym, ◌∙◌, ◌<◌, ap, inl, inr, List, ◌∷◌, none, some, Text, eq_text_iff, eq_text_refl,
  arith, Option-cases,
}
use cpp_wb_server.Log.World.{World}
use cpp_wb_server.Log.Manager.{find_name, get_logger}
use cpp_wb_server.Log.Manager.Invariant.{IsValid}
use cpp_wb_server.Log.Manager.Operations.{get_logger-IsValid}

pub get_logger_found :
    (n : Text) (w : World) (l : ℕ) → find_name w.names n ≡ some l → get_logger n w ≡ (l, w)
unfolding get_logger
get_logger_found n w l h = rw (h, get_logger)

get_logger_names :
    (n : Text) (w : World)
    → find_name w.names n ≡ none
    → ((get_logger n w).0 ≡ w.next_logger)
      × ((get_logger n w).1.names ≡ (n, w.next_logger) ∷ w.names)
unfolding get_logger
get_logger_names n w h = (rw (h, get_logger), rw (h, get_logger))

pub find_name_here : (n : Text) (l : ℕ) (ns : List (Text × ℕ)) → find_name ((n, l) ∷ ns) n ≡ some l
unfolding find_name
find_name_here n l ns = rw (eq_text_refl n)

find_name_there :
    (n : Text) (l : ℕ) (ns : List (Text × ℕ)) (m : Text)
    → n ≢ m
    → find_name ((n, l) ∷ ns) m ≡ find_name ns m
unfolding find_name
find_name_there n l ns m ne = ground (arith, eq_text_iff n m)

-- What was asked for is found from then on.
pub find_name-get_logger :
    (n : Text) (w : World) → find_name (get_logger n w).1.names n ≡ some (get_logger n w).0
find_name-get_logger n w = elim (Option-cases (find_name w.names n)) [
  | inl missing ↦
      let (same, ns) = get_logger_names n w missing in
      rw (same, ns) (find_name_here n w.next_logger w.names)
  | inr (l, found) ↦ rw (get_logger_found n w l found) found
]

-- Other names keep their loggers.
pub find_name-get_logger_ne :
    (n m : Text) (w : World) → n ≢ m → find_name (get_logger n w).1.names m ≡ find_name w.names m
find_name-get_logger_ne n m w ne = elim (Option-cases (find_name w.names n)) [
  | inl missing ↦
      rw ((get_logger_names n w missing).1) (find_name_there n w.next_logger w.names m ne)
  | inr (l, found) ↦ rw (get_logger_found n w l found)
]

pub get_logger-below :
    (n : Text) (w : World) → IsValid w → (get_logger n w).0 < (get_logger n w).1.next_logger
get_logger-below n w v =
    ((get_logger-IsValid n w v).named n (get_logger n w).0 (find_name-get_logger n w)).0

-- In a valid state `get_logger` answers an existing logger of that name, the same one with no
-- change when it is asked again, and another one for another name.
pub get_logger-named :
    (n m : Text) (w : World)
    → IsValid w
    → n ≢ m
    → ((get_logger n w).0 < (get_logger n w).1.next_logger)
      × (((get_logger n w).1.loggers (get_logger n w).0).name ≡ n)
      × (get_logger n (get_logger n w).1 ≡ get_logger n w)
      × ((get_logger n w).0 ≢ (get_logger m (get_logger n w).1).0)
get_logger-named n m w v ne =
    let (l, w₁) = get_logger n w in
    let v₁ : IsValid w₁ = get_logger-IsValid n w v in
    let (below, called) = v₁.named n l (find_name-get_logger n w) in
    (
      below,
      called,
      get_logger_found n w₁ l (find_name-get_logger n w),
      λ same.
          let v₂ : IsValid (get_logger m w₁).1 = get_logger-IsValid m w₁ v₁ in
          let at_m = v₂.named m (get_logger m w₁).0 (find_name-get_logger m w₁) in
          let at_n =
            v₂.named n l
              (find_name-get_logger_ne m n w₁ (λ e. ne (sym e)) ∙ find_name-get_logger n w) in
          ne (sym at_n.1 ∙ ap (λ k. ((get_logger m w₁).1.loggers k).name) same ∙ at_m.1),
    )
