-- ===== src/Config/Registry/Names.antt =====
-- The names that `Config::lookup` of wb_server/config.h takes.
use cpp_wb_server.Common.{
  ◌∙◌, ℕ, ◌≡◌, refl, sym, ap, true, ◌==◌, [], ◌∷◌, map, Text, to_lower, arith, All, Bool-cases,
  ==_iff, inl, inr, subst,
}
use cpp_wb_server.Config.Registry.{member, name_bytes, is_name}

member-All : (P : ℕ → Type 0) (c : ℕ) (s : Text) → All P s → member c s ≡ true → P c
member-All P c [] a h = absurd (ground (arith, h))
member-All P c (b ∷ s) a h = elim (Bool-cases (c == b)) [
  | inl e ↦ subst P (sym ((==_iff c b).0 e)) a.0
  | inr e ↦ member-All P c s a.1 (rw e at h)
]

name_bytes-lower : All (λ b. to_lower b ≡ b) name_bytes
name_bytes-lower = ground arith

-- A name that the registry takes is in lower case.
pub is_name-lower : (s : Text) → is_name s ≡ true → map to_lower s ≡ s
unfolding is_name
is_name-lower [] h = refl
is_name-lower (c ∷ s) h =
    let here : member c name_bytes ≡ true = ground (arith, h) in
    let low : to_lower c ≡ c =
      member-All (λ b. to_lower b ≡ b) c name_bytes name_bytes-lower here in
    let rest : map to_lower s ≡ s = is_name-lower s (ground (arith, h)) in
    ap (λ d. d ∷ map to_lower s) low ∙ ap (λ t. c ∷ t) rest
