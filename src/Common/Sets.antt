-- ===== src/Common/Sets.antt =====
-- `std::set` as the list of its elements in order.
use mathlib.Core.Path.{◌≡◌, refl, sym, ap, ◌∙◌}
use mathlib.Core.Bool.{Bool, true, false}
use mathlib.Core.List.{List, [], ◌∷◌, ◌++◌, foldl, append-nil, append_assoc}
use cpp_wb_server.Common.Tests.{if◌then◌else◌}
use cpp_wb_server.Common.Lists.{All, All-append}

-- `std::set::insert`.
unfoldable pub set_insert : {T : Type 0} → (T → T → Bool) → List T → T → List T
set_insert lt [] x = x ∷ []
set_insert lt (y ∷ ys) x =
    if lt x y then x ∷ y ∷ ys else if lt y x then y ∷ set_insert lt ys x else y ∷ ys

module _ {T : Type 0} (lt : T → T → Bool) where
  -- The order in which a `std::set` holds its elements.
  abbrev pub Increasing : List T → Type 0
  Increasing [] = Unit
  Increasing (x ∷ xs) = All (λ z. lt x z ≡ true) xs × Increasing xs

  abbrev IsAsym : Type 0
  IsAsym = (a b : T) → lt a b ≡ true → lt b a ≡ false

  set_insert_last :
      (ys : List T) (x : T)
      → IsAsym
      → All (λ w. lt w x ≡ true) ys
      → set_insert lt ys x ≡ ys ++ x ∷ []
  unfolding set_insert
  set_insert_last [] x asym h = refl
  set_insert_last (w ∷ ys) x asym h =
      rw (asym w x h.0, h.0) (ap (λ zs. w ∷ zs) (set_insert_last ys x asym h.1))

  All-below_snoc :
      (ys xs : List T) (x : T)
      → All (λ z. All (λ w. lt w z ≡ true) ys) xs
      → All (λ z. lt x z ≡ true) xs
      → All (λ z. All (λ w. lt w z ≡ true) (ys ++ x ∷ [])) xs
  All-below_snoc ys [] x h k = tt
  All-below_snoc ys (z ∷ xs) x h k =
      (All-append (λ w. lt w z ≡ true) ys (x ∷ []) h.0 (k.0, tt), All-below_snoc ys xs x h.1 k.1)

  pub foldl-set_insert :
      (ys xs : List T)
      → IsAsym
      → All (λ z. All (λ w. lt w z ≡ true) ys) xs
      → Increasing xs
      → foldl (set_insert lt) ys xs ≡ ys ++ xs
  foldl-set_insert ys [] asym h s = sym (append-nil ys)
  foldl-set_insert ys (x ∷ xs) asym h s =
      ap (λ zs. foldl (set_insert lt) zs xs) (set_insert_last ys x asym h.0)
      ∙ foldl-set_insert (ys ++ x ∷ []) xs asym (All-below_snoc ys xs x h.1 s.0) s.1
      ∙ append_assoc ys (x ∷ []) xs

pub All-every {ℓ κ} : {A : Type ℓ} {P : A → Type κ} (xs : List A) → ((x : A) → P x) → All P xs
All-every [] h = tt
All-every (x ∷ xs) h = (h x, All-every xs h)
