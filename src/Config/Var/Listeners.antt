-- ===== src/Config/Var/Listeners.antt =====
-- The callbacks of a `ConfigVar` (wb_server/config.h) as a map from ids.
use cpp_wb_server.Common.{
  ==_iff, ◌∙◌, ℕ, ◌≡◌, ◌<◌, ◌≤◌, ◌+◌, ◌^◌, ◌%◌, refl, List, [], ◌∷◌, none, some, ◌==◌,
  if◌then◌else◌, arith, if_cases, ==_iff,
}
use cpp_wb_server.Config.Var.{
  Callback, ConfigVar, put_callback, erase_callback, find_callback, add_listener, del_listener,
  get_listener,
}

module _ {T : Type 0} where
  -- The keys grow from above `lo` to at most `hi`.
  abbrev pub Keys : ℕ → ℕ → List (ℕ × Callback T) → Type 0
  Keys lo hi [] = Unit
  Keys lo hi ((k, c) ∷ cbs) = (lo < k) × (k ≤ hi) × Keys k hi cbs

  put_callback-Keys :
      (key : ℕ) (cb : Callback T) (lo hi : ℕ) (cbs : List (ℕ × Callback T))
      → lo ≤ hi
      → hi < key
      → Keys lo hi cbs
      → Keys lo key (put_callback key cb cbs)
  unfolding put_callback
  put_callback-Keys key cb lo hi [] b h s = (omega arith, omega arith, tt)
  put_callback-Keys key cb lo hi ((k, c) ∷ cbs) b h s =
      let rest = put_callback-Keys key cb k hi cbs s.1 h s.2 in ground (arith, s, rest)

  Keys-below : (lo k hi : ℕ) (cbs : List (ℕ × Callback T)) → lo ≤ k → Keys k hi cbs → Keys lo hi cbs
  Keys-below lo k hi [] h s = tt
  Keys-below lo k hi ((i, c) ∷ cbs) h s = (omega (arith, s.0), s.1, s.2)

  erase_callback-Keys :
      (key lo hi : ℕ) (cbs : List (ℕ × Callback T))
      → Keys lo hi cbs
      → Keys lo hi (erase_callback key cbs)
  unfolding erase_callback
  erase_callback-Keys key lo hi [] s = tt
  erase_callback-Keys key lo hi ((k, c) ∷ cbs) s =
      if_cases (Keys lo hi) (key == k) (Keys-below lo k hi cbs (omega (arith, s.0)) s.2)
        (s.0, s.1, erase_callback-Keys key k hi cbs s.2)

  find-put :
      (key : ℕ) (cb : Callback T) (i : ℕ) (cbs : List (ℕ × Callback T))
      → find_callback i (put_callback key cb cbs)
        ≡ (if i == key then some cb else find_callback i cbs)
  unfolding find_callback put_callback
  find-put key cb i [] = refl
  find-put key cb i ((k, c) ∷ cbs) = ground (arith, find-put key cb i cbs)

  find_outside :
      (i lo hi : ℕ) (cbs : List (ℕ × Callback T))
      → i ≤ lo
      → Keys lo hi cbs
      → find_callback i cbs ≡ none
  unfolding find_callback
  find_outside i lo hi [] h s = refl
  find_outside i lo hi ((k, c) ∷ cbs) h s =
      ground (arith, find_outside i k hi cbs (omega (arith, s.0)) s.2, s.0)

  find_above :
      (i lo hi : ℕ) (cbs : List (ℕ × Callback T))
      → hi < i
      → Keys lo hi cbs
      → find_callback i cbs ≡ none
  unfolding find_callback
  find_above i lo hi [] h s = refl
  find_above i lo hi ((k, c) ∷ cbs) h s = ground (arith, find_above i k hi cbs h s.2, s.1)

  find-erase :
      (key i lo hi : ℕ) (cbs : List (ℕ × Callback T))
      → Keys lo hi cbs
      → find_callback i (erase_callback key cbs) ≡ (if i == key then none else find_callback i cbs)
  unfolding find_callback erase_callback
  find-erase key i lo hi [] s = ground arith
  find-erase key i lo hi ((k, c) ∷ cbs) s =
      ground (arith, find-erase key i k hi cbs s.2, find_outside k k hi cbs (omega arith) s.2)

  -- While fewer than 2^64 - 1 ids have been given and the ids are in order, the next one is new,
  -- and `add_listener` and `del_lietener` change what `get_listener` answers for the one id only;
  -- the ids stay in order.
  pub listeners :
      (fun_id key i : ℕ) (cb : Callback T) (x : ConfigVar T)
      → fun_id + 1 < 2 ^ 64
      → Keys 0 fun_id x.cbs
      → (get_listener (fun_id + 1) x ≡ none)
        × ((add_listener fun_id cb x).0 ≡ fun_id + 1)
        × Keys 0 (fun_id + 1) (add_listener fun_id cb x).1.cbs
        × (get_listener key (add_listener fun_id cb x).1
            ≡ (if key == fun_id + 1 then some cb else get_listener key x))
        × Keys 0 fun_id (del_listener key x).cbs
        × (get_listener (fun_id + 1) (del_listener (fun_id + 1) (add_listener fun_id cb x).1)
            ≡ none)
        × (get_listener i (del_listener key x) ≡ (if i == key then none else get_listener i x))
  unfolding get_listener add_listener del_listener
  listeners fun_id key i cb x b s =
      let id : (fun_id + 1) % 2 ^ 64 ≡ fun_id + 1 = omega arith in
      let k : Keys 0 (fun_id + 1) (put_callback (fun_id + 1) cb x.cbs) =
        put_callback-Keys (fun_id + 1) cb 0 fun_id x.cbs (omega arith) (omega arith) s in
      (
        find_above (fun_id + 1) 0 fun_id x.cbs (omega arith) s,
        id,
        rw id k,
        rw id (find-put (fun_id + 1) cb key x.cbs),
        erase_callback-Keys key 0 fun_id x.cbs s,
        rw id (
            find-erase (fun_id + 1) (fun_id + 1) 0 (fun_id + 1) _ k
            ∙ rw ((==_iff (fun_id + 1) (fun_id + 1)).1 refl)),
        find-erase key i 0 fun_id x.cbs s,
      )
