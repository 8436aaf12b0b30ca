-- ===== src/Config/Registry/Visit.antt =====
-- `Config::Visit` of wb_server/config.cc.
use cpp_wb_server.Common.{
  ℕ, ◌≡◌, ap, sym, ◌∙◌, List, [], ◌∷◌, ◌++◌, map, Text, append-nil, append_assoc,
}
use cpp_wb_server.Log.World.{Result, ok, ◌>>=◌}
use cpp_wb_server.Config.Registry.{Types, Store}

module _ {S : Type 0} (cb : ℕ → S → Result S) where
  -- The loop over the entries: the callback takes a variable's address and changes its own state.
  unfoldable visit_entries : List (Text × ℕ) → S → Result S
  visit_entries [] st = ok st
  visit_entries ((name, l) ∷ es) st = do st' ← cb l st; visit_entries es st'

  -- `order` is the order of an `unordered_map`, which is not specified.
  unfoldable visit : (u : Types) → (List (Text × ℕ) → List (Text × ℕ)) → Store u → S → Result S
  unfolding visit_entries
  visit u order s st = visit_entries (order s.datas) st

visit_entries-addresses :
    (es : List (Text × ℕ)) (seen : List ℕ)
    → visit_entries (λ l ls. ok (ls ++ l ∷ [])) es seen
      ≡ ok (seen ++ map (λ (e : Text × ℕ). e.1) es)
unfolding visit_entries
visit_entries-addresses [] seen = ap ok (sym (append-nil seen))
visit_entries-addresses ((name, l) ∷ es) seen =
    visit_entries-addresses es (seen ++ l ∷ []) ∙ ap ok (append_assoc seen (l ∷ []) _)

-- The callback is called once for each entry, in the order of the map.
visit-addresses :
    (u : Types) (order : List (Text × ℕ) → List (Text × ℕ)) (s : Store u)
    → visit (λ l ls. ok (ls ++ l ∷ [])) u order s []
      ≡ ok (map (λ (e : Text × ℕ). e.1) (order s.datas))
unfolding visit
visit-addresses u order s = visit_entries-addresses (order s.datas) []
