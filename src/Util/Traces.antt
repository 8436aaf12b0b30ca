-- ===== src/Util/Traces.antt =====
-- The text of a backtrace of wb_server/util.cc, as a list of lines.
use cpp_wb_server.Common.{
  ℕ, zero, suc, ◌+◌, ◌-◌, ◌≡◌, refl, ap, sym, ◌∙◌, List, [], ◌∷◌, ◌++◌, Option, none, some, Text,
  length, concat_map, append-nil, append_assoc, arith,
}
use cpp_wb_server.Util.{
  get_elem, push_strings, push_symbols, backtrace, add_lines, backtrace_to_string,
}

-- What is left of a list behind its first elements.
abbrev pub drop : ℕ → List Text → List Text
drop zero xs = xs
drop (suc n) [] = []
drop (suc n) (x ∷ xs) = drop n xs

drop_all : (i : ℕ) (xs : List Text) → 0 ≡ length xs - i → drop i xs ≡ []
drop_all zero [] h = refl
drop_all zero (x ∷ xs) h = absurd (omega (arith, h))
drop_all (suc i) [] h = refl
drop_all (suc i) (x ∷ xs) h = drop_all i xs (omega (arith, h))

drop-cons_suc :
    (i n : ℕ) (xs : List Text) → suc n ≡ length xs - i → drop i xs ≡ get_elem xs i ∷ drop (suc i) xs
unfolding get_elem
drop-cons_suc zero n [] h = absurd (omega (arith, h))
drop-cons_suc zero n (x ∷ xs) h = refl
drop-cons_suc (suc i) n [] h = absurd (omega (arith, h))
drop-cons_suc (suc i) n (x ∷ xs) h = drop-cons_suc i n xs (omega (arith, h))

drop-cons :
    (i n : ℕ) (xs : List Text) → suc n ≡ length xs - i → drop i xs ≡ get_elem xs i ∷ drop (i + 1) xs
drop-cons i n xs h = drop-cons_suc i n xs h ∙ ap (λ k. get_elem xs i ∷ drop k xs) suc_is
  where
    suc_is : suc i ≡ i + 1
    suc_is = omega arith

push_strings-drop :
    (n i : ℕ) (strings bt : List Text)
    → n ≡ length strings - i
    → push_strings strings i n bt ≡ bt ++ drop i strings
unfolding push_strings
push_strings-drop zero i strings bt h = rw (drop_all i strings h, append-nil bt) refl
push_strings-drop (suc n) i strings bt h =
    push_strings-drop n (i + 1) strings (bt ++ get_elem strings i ∷ []) (omega (arith, h))
    ∙ append_assoc bt (get_elem strings i ∷ []) (drop (i + 1) strings)
    ∙ ap (λ ys. bt ++ ys) (sym (drop-cons i n strings h))

abbrev pub line : Text → Text → Text
line prefix s = prefix ++ (s ++ 10 ∷ [])

add_lines-concat_map :
    (prefix : Text) (n i : ℕ) (bt : List Text) (ss : Text)
    → n ≡ length bt - i
    → add_lines prefix bt i n ss ≡ ss ++ concat_map (line prefix) (drop i bt)
unfolding add_lines
add_lines-concat_map prefix zero i bt ss h = rw (drop_all i bt h, append-nil ss) refl
add_lines-concat_map prefix (suc n) i bt ss h =
    add_lines-concat_map prefix n (i + 1) bt (ss ++ line prefix (get_elem bt i)) (omega (arith, h))
    ∙ append_assoc ss (line prefix (get_elem bt i)) (concat_map (line prefix) (drop (i + 1) bt))
    ∙ ap (λ ys. ss ++ concat_map (line prefix) ys) (sym (drop-cons i n bt h))

-- The strings behind the first `skip` ones; none when `backtrace_symbols` fails.
abbrev pub left : Option (List Text) → ℕ → List Text
left none skip = []
left (some strings) skip = drop skip strings

push_symbols-left : (o : Option (List Text)) (skip : ℕ) → (push_symbols o [] skip).0 ≡ left o skip
unfolding push_symbols
push_symbols-left none skip = refl
push_symbols-left (some strings) skip = push_strings-drop _ skip strings [] refl

-- The text has one line, the prefix in front, for each string behind the first `skip` ones; there
-- are none when `skip` is past the end or `backtrace_symbols` fails.
pub backtrace_to_string_lines :
    (symbols : ℕ → Option (List Text)) (size skip : ℕ) (prefix : Text)
    → backtrace_to_string symbols size skip prefix
      ≡ concat_map (line prefix) (left (symbols size) skip)
unfolding backtrace_to_string backtrace
backtrace_to_string_lines symbols size skip prefix =
    add_lines-concat_map prefix (length (backtrace symbols [] size skip).0) 0
      (backtrace symbols [] size skip).0 [] (omega arith)
    ∙ ap (concat_map (line prefix)) (push_symbols-left (symbols size) skip)
