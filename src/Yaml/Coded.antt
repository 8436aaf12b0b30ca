-- ===== src/Yaml/Coded.antt =====
-- A small implementation of the interface of yaml-cpp, whose nodes are texts: a text with its length
-- in front of it for each part, the last part first.
use cpp_wb_server.Common.{
  ℕ, zero, suc, ◌+◌, ◌≤◌, ◌≡◌, refl, ap, sym, subst, ◌∙◌, true, false, Bool, List, [], ◌∷◌, ◌++◌,
  Option, none, some, Text, eq_text, if◌then◌else◌, length, length-append, append_assoc, arith,
}
use mathlib.Core.List.{foldl, reverse, reverse-cons}
use mathlib.Mathlib.Data.List.Basic.{reverse-foldl}
use cpp_wb_server.Yaml.{gave, Yaml, Builder, elements, elements_from}
use cpp_wb_server.Yaml.Laws.{Both, both_nil, both_cons, IsFaithful, IsKeyed}

take : ℕ → Text → Text
take zero n = []
take (suc k) [] = []
take (suc k) (c ∷ n) = c ∷ take k n

drop : ℕ → Text → Text
drop zero n = n
drop (suc k) [] = []
drop (suc k) (c ∷ n) = drop k n

take-append : (x n : Text) → take (length x) (x ++ n) ≡ x
unfolding take
take-append [] n = refl
take-append (c ∷ x) n = ap (λ z. c ∷ z) (take-append x n)

drop-append : (x n : Text) → drop (length x) (x ++ n) ≡ n
unfolding drop
drop-append [] n = refl
drop-append (c ∷ x) n = drop-append x n

length-drop : (k : ℕ) (n : Text) → length (drop k n) ≤ length n
unfolding drop
length-drop zero n = omega arith
length-drop (suc k) [] = omega arith
length-drop (suc k) (c ∷ n) = omega (arith, length-drop k n)

abbrev pub frame : Text → Text → Text
frame x n = length x ∷ (x ++ n)

unframe : ℕ → Text → List Text
unfolding take drop
unframe zero n = []
unframe (suc k) [] = []
unframe (suc k) (l ∷ n) = take l n ∷ unframe k (drop l n)

unframe_enough : (k j : ℕ) (n : Text) → length n ≤ k → length n ≤ j → unframe k n ≡ unframe j n
unfolding unframe
unframe_enough zero zero n h g = refl
unframe_enough zero (suc j) [] h g = refl
unframe_enough zero (suc j) (l ∷ n) h g = absurd (omega (arith, h))
unframe_enough (suc k) zero [] h g = refl
unframe_enough (suc k) zero (l ∷ n) h g = absurd (omega (arith, g))
unframe_enough (suc k) (suc j) [] h g = refl
unframe_enough (suc k) (suc j) (l ∷ n) h g =
    ap (λ z. take l n ∷ z)
      (unframe_enough k j (drop l n) (omega (arith, h, length-drop l n))
        (omega (arith, g, length-drop l n)))

pub parts : Text → List Text
unfolding unframe
parts n = unframe (length n) n

parts-frame : (x n : Text) → parts (frame x n) ≡ x ∷ parts n
unfolding parts unframe
parts-frame x n =
    ap (λ z. z ∷ unframe (length (x ++ n)) (drop (length x) (x ++ n))) (take-append x n)
    ∙ ap (λ z. x ∷ unframe (length (x ++ n)) z) (drop-append x n)
    ∙ ap (λ z. x ∷ z)
        (unframe_enough (length (x ++ n)) (length n) n (omega (arith, length-append x n))
          (omega arith))

pub pair_up : List Text → List (Text × Text)
pair_up [] = []
pair_up (k ∷ []) = []
pair_up (k ∷ v ∷ xs) = (k, v) ∷ pair_up xs

pub find : Text → List (Text × Text) → Option Text
find k [] = none
find k ((j, v) ∷ m) = if eq_text k j then some v else find k m

pub get_or : List Text → ℕ → Text
get_or [] i = []
get_or (x ∷ xs) zero = x
get_or (x ∷ xs) (suc i) = get_or xs i

abbrev pub put : Text → Text → Text → Text
put n k v = frame k (frame v n)

-- `load` and `<<` are the identity.
abbrev pub coded_yaml : Yaml
coded_yaml = record {
  Node = Text;
  load = gave;
  size = λ n. length (parts n);
  at = λ n i. get_or (reverse (parts n)) i;
  field = λ n k. gave (find k (pair_up (parts n)));
  as_text = gave;
  scalar = λ n. none;
  entries = λ n. none;
  show = λ n. n;
}

abbrev pub coded_builder : Builder coded_yaml
coded_builder = record {
  null = [];
  text = λ t. t;
  push_back = λ n x. frame x n;
  put = put;
  pairs = λ n. gave (reverse (pair_up (parts n)));
}

parts-pushed :
    (ns : List Text) (n : Text)
    → parts (foldl (λ m x. frame x m) n ns) ≡ foldl (λ p x. x ∷ p) (parts n) ns
parts-pushed [] n = refl
parts-pushed (x ∷ ns) n =
    parts-pushed ns (frame x n) ∙ ap (λ p. foldl (λ q z. z ∷ q) p ns) (parts-frame x n)

pairs-put :
    (es : List (Text × Text)) (n : Text)
    → pair_up (parts (foldl (λ m e. put m e.0 e.1) n es))
      ≡ foldl (λ p e. e ∷ p) (pair_up (parts n)) es
unfolding pair_up
pairs-put [] n = refl
pairs-put (e ∷ es) n =
    pairs-put es (put n e.0 e.1)
    ∙ ap (λ p. foldl (λ q z. z ∷ q) p es)
        (ap pair_up (parts-frame e.0 (frame e.1 n) ∙ ap (λ p. e.0 ∷ p) (parts-frame e.1 n)))

get_or-append : (xs : List Text) (x : Text) (ys : List Text) → get_or (xs ++ x ∷ ys) (length xs) ≡ x
unfolding get_or
get_or-append [] x ys = refl
get_or-append (w ∷ xs) x ys = get_or-append xs x ys

-- The loop over the indices goes through the list.
elements_from-get_or :
    (n : Text) (xs ys : List Text)
    → reverse (parts n) ≡ xs ++ ys
    → elements_from coded_yaml n (length xs) (length ys) ≡ ys
elements_from-get_or n xs [] h = refl
elements_from-get_or n xs (x ∷ ys) h =
    ap (λ z. z ∷ elements_from coded_yaml n (length xs + 1) (length ys))
      (ap (λ p. get_or p (length xs)) h ∙ get_or-append xs x ys)
    ∙ ap (λ z. x ∷ z)
        (ap (λ i. elements_from coded_yaml n i (length ys)) (sym (length-append xs (x ∷ [])))
          ∙ elements_from-get_or n (xs ++ x ∷ []) ys (h ∙ sym (append_assoc xs (x ∷ []) ys)))

length-reverse_lem : (xs : List Text) → length (reverse xs) ≡ length xs
length-reverse_lem [] = refl
length-reverse_lem (x ∷ xs) =
    ap length (reverse-cons x xs)
    ∙ omega (arith, length-append (reverse xs) (x ∷ []), length-reverse_lem xs)

elements-reverse : (n : Text) → elements coded_yaml n ≡ reverse (parts n)
elements-reverse n =
    ap (λ k. elements_from coded_yaml n 0 k) (sym (length-reverse_lem (parts n)))
    ∙ elements_from-get_or n [] (reverse (parts n)) refl

Both-refl : {A : Type 0} (R : A → A → Type 0) → ((a : A) → R a a) → (xs : List A) → Both R xs xs
Both-refl R r [] = both_nil
Both-refl R r (x ∷ xs) = both_cons (r x) (Both-refl R r xs)

pub coded-IsFaithful : IsFaithful coded_yaml coded_builder
unfolding parts unframe pair_up
coded-IsFaithful = record {
  Same = ◌≡◌;
  same_trans = λ l m n p q. p ∙ q;
  load_show = λ n. (n, refl, refl);
  same_elements = λ m n s.
      subst (λ z. Both ◌≡◌ (elements coded_yaml m) (elements coded_yaml z)) s
        (Both-refl ◌≡◌ (λ a. refl) (elements coded_yaml m));
  same_pairs = λ m n es s h. (es, ap coded_builder.pairs s ∙ h, Both-refl _ (λ e. (refl, refl)) es);
  elements_pushed = λ ns.
      elements-reverse (foldl coded_builder.push_back [] ns)
      ∙ ap reverse (parts-pushed ns [])
      ∙ reverse-foldl {l = ns};
  pairs_put =
      λ es a. ap (λ p. gave (reverse p)) (pairs-put es []) ∙ ap gave (reverse-foldl {l = es});
}

gave-if :
    {A : Type 0} (c : Bool) (x z : A) → gave (if c then x else z) ≡ (if c then gave x else gave z)
gave-if true x z = refl
gave-if false x z = refl

pub coded-IsKeyed : IsKeyed coded_yaml coded_builder coded-IsFaithful.Same
unfolding coded-IsFaithful parts unframe pair_up find
coded-IsKeyed = record {
  same_text = λ m n s. ap gave s;
  same_field = λ m n v k s h. (v, ap (λ z. coded_yaml.field z k) s ∙ h, refl);
  same_missing = λ m n k s h. ap (λ z. coded_yaml.field z k) s ∙ h;
  text_read = λ t. refl;
  field_null = λ k. refl;
  field_put = λ n v k j m.
      ap (λ p. gave (find j (pair_up p)))
        (parts-frame k (frame v n) ∙ ap (λ p. k ∷ p) (parts-frame v n))
      ∙ gave-if (eq_text j k) (some v) (find j (pair_up (parts n)));
}

pub coded-Same : (m n : Text) → coded-IsFaithful.Same m n → m ≡ n
unfolding coded-IsFaithful
coded-Same m n s = s
