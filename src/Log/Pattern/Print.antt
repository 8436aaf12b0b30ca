-- ===== src/Log/Pattern/Print.antt =====
-- Patterns written part by part, and what the parser of wb_server/log.cc collects from them.
use cpp_wb_server.Common.{
  ℕ, ◌≡◌, refl, ◌≢◌, ◌∙◌, Bool, true, not, ◌&&◌, ◌||◌, List, [], ◌∷◌, ◌++◌, Text, is_alpha, ◌==◌,
  All, append_assoc, append-nil, arith,
}
use cpp_wb_server.Log.Pattern.{
  Scan, Status, in_name, in_format, closed, Pieces, scan_format, scan_name, take_scan,
}

-- A plain text, `%s`, and `%s{f}`.
pub data Part : Type 0 where
  literal : Text → Part
  name : Text → Part
  formatted : Text → Text → Part

abbrev pub print_part : Part → Text
print_part (literal s) = s
print_part (name s) = b'%' ∷ s
print_part (formatted s f) = b'%' ∷ (s ++ (b'{' ∷ (f ++ b'}' ∷ [])))

-- The pattern of `ps`, with `rest` behind it.
abbrev pub print_onto : List Part → Text → Text
print_onto [] rest = rest
print_onto (p ∷ ps) rest = print_part p ++ print_onto ps rest

abbrev pub print : List Part → Text
print ps = print_onto ps []

-- A byte that the scan of a directive's name passes.
abbrev pub InName : ℕ → Type 0
InName c = (is_alpha c || c == b'}') ≡ true

-- The scan of a name ends in front of this text.
abbrev pub stops : Text → Bool
stops [] = true
stops (c ∷ _) = not (is_alpha c) && not (c == b'{') && not (c == b'}')

abbrev pub Differs : ℕ → ℕ → Type 0
Differs b c = c ≢ b

-- `ps` reads back as written when `rest` follows it.
abbrev pub Fits : List Part → Text → Type 0
Fits [] rest = Unit
Fits (literal s ∷ ps) rest = All (Differs b'%') s × Fits ps rest
Fits (name s ∷ ps) rest =
    (s ≢ []) × All InName s × (stops (print_onto ps rest) ≡ true) × Fits ps rest
Fits (formatted s f ∷ ps) rest = All InName s × All (Differs b'}') f × Fits ps rest

abbrev pub scanned : Status → Text → Text → Text → Scan
scanned st s f rest = record { status = st; str = s; fmt = f; rest = rest }

-- What the parser does with each part, with no position to look at.
abbrev pub collect_part : Pieces → Part → Pieces
collect_part p (literal s) = record p { nstr = p.nstr ++ s }
collect_part p (name s) = take_scan (record { status = in_name; str = s; fmt = []; rest = [] }) [] p
collect_part p (formatted s f) =
    take_scan (record { status = closed; str = s; fmt = f; rest = [] }) [] p

abbrev pub collect : Pieces → List Part → Pieces
collect p [] = p
collect p (a ∷ ps) = collect (collect_part p a) ps

pub scan_name-word :
    (s passed rest : Text)
    → All InName s
    → scan_name passed (s ++ rest) ≡ scan_name (passed ++ s) rest
unfolding scan_name
scan_name-word [] passed rest h = rw append-nil
scan_name-word (c ∷ s) passed rest h =
    ground (arith, scan_name-word s (passed ++ c ∷ []) rest h.1, append_assoc passed (c ∷ []) s)

pub scan_name-stop :
    (passed rest : Text)
    → stops rest ≡ true
    → scan_name passed rest ≡ scanned in_name passed [] rest
unfolding scan_name
scan_name-stop passed [] h = refl
scan_name-stop passed (c ∷ rest) h = ground arith

pub scan_format-close :
    (f str passed rest : Text)
    → All (Differs b'}') f
    → scan_format str passed (f ++ b'}' ∷ rest) ≡ scanned closed str (passed ++ f) rest
unfolding scan_format
scan_format-close [] str passed rest h = rw append-nil
scan_format-close (c ∷ f) str passed rest h =
    ground
      (arith, scan_format-close f str (passed ++ c ∷ []) rest h.1, append_assoc passed (c ∷ []) f)

pub scan_format-open :
    (f str passed : Text)
    → All (Differs b'}') f
    → scan_format str passed f ≡ scanned in_format str [] []
unfolding scan_format
scan_format-open [] str passed h = refl
scan_format-open (c ∷ f) str passed h =
    ground (arith, scan_format-open f str (passed ++ c ∷ []) h.1)

pub scan_name-brace :
    (s rest : Text) → All InName s → scan_name [] (s ++ b'{' ∷ rest) ≡ scan_format s [] rest
scan_name-brace s rest h = scan_name-word s [] (b'{' ∷ rest) h ∙ at_brace s rest
  where
    at_brace : (s rest : Text) → scan_name s (b'{' ∷ rest) ≡ scan_format s [] rest
    at_brace s rest = unfold scan_name in refl
