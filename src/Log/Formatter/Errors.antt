-- ===== src/Log/Formatter/Errors.antt =====
-- When a formatter is in error (`m_error` in wb_server/log.cc), and the patterns that the parser
-- gets wrong.
use cpp_wb_server.Common.{
  map, ◌≡◌, refl, ◌∙◌, ap, Bool, true, not, ◌&&◌, ◌||◌, List, [], ◌∷◌, ◌++◌, Text, is_empty, arith,
  if◌then◌else◌,
}
use cpp_wb_server.Log.Level.{Level}
use cpp_wb_server.Log.Event.{Event}
use cpp_wb_server.Log.Pattern.{Piece, directive, Pieces, text_piece, take_scan, split, vec_of}
use cpp_wb_server.Log.Pattern.Print.{
  Part, literal, name, formatted, print, Fits, collect, collect_part,
}
use cpp_wb_server.Log.Pattern.Runs.{Runs-print, Runs-nil, start, split-Runs}
use cpp_wb_server.Log.Formatter.{
  parse_error, Formatter, add_piece, add_pieces, new, Printer, format,
}
use cpp_wb_server.Log.Formatter.Meaning.{
  known, known_piece, all_known, find_item-known, delayed, new-text, collect-delayed,
}

all_known-append : (ps qs : List Piece) → all_known (ps ++ qs) ≡ (all_known ps && all_known qs)
all_known-append [] qs = refl
all_known-append (p ∷ ps) qs = ground (arith, all_known-append ps qs)

add_piece-is_error :
    (f : Formatter) (p : Piece) → (add_piece f p).is_error ≡ (f.is_error || not (known_piece p))
unfolding add_piece
add_piece-is_error f p = ground (arith, find_item-known p.str p.fmt)

add_pieces-is_error :
    (f : Formatter) (ps : List Piece)
    → (add_pieces f ps).is_error ≡ (f.is_error || not (all_known ps))
unfolding add_pieces
add_pieces-is_error f [] = ground arith
add_pieces-is_error f (p ∷ ps) =
    ground (arith, add_pieces-is_error (add_piece f p) ps, add_piece-is_error f p)

pub new-is_error :
    (s : Text) → (new s).is_error ≡ ((split s).failed || not (all_known (vec_of (split s))))
unfolding new
new-is_error s =
    add_pieces-is_error
      (record {
        pattern = s;
        items = [];
        is_error = (split s).failed;
        reports = map (parse_error s) (split s).reported;
      })
      (vec_of (split s))

-- Every directive of the pattern is one of the twelve.
abbrev pub parts_known : List Part → Bool
parts_known [] = true
parts_known (literal s ∷ ps) = parts_known ps
parts_known (name s ∷ ps) = known s && parts_known ps
parts_known (formatted s f ∷ ps) = known s && parts_known ps

collect-failed : (p : Pieces) (ps : List Part) → (collect p ps).failed ≡ p.failed
unfolding take_scan
collect-failed p [] = refl
collect-failed p (literal s ∷ ps) = collect-failed _ ps
collect-failed p (name s ∷ ps) = collect-failed _ ps
collect-failed p (formatted s f ∷ ps) = collect-failed _ ps

text_piece-known : (v : List Piece) (s : Text) → all_known (v ++ text_piece s ∷ []) ≡ all_known v
text_piece-known v s = ground (arith, all_known-append v (text_piece s ∷ []))

directive-known :
    (v : List Piece) (s f : Text)
    → all_known (v ++ record { str = s; fmt = f; kind = directive } ∷ []) ≡ (all_known v && known s)
directive-known v s f =
    ground (arith, all_known-append v (record { str = s; fmt = f; kind = directive } ∷ []))

take_name-known :
    (p : Pieces) (s : Text) → all_known (collect_part p (name s)).vec ≡ (all_known p.vec && known s)
unfolding take_scan
take_name-known p s =
    directive-known (if is_empty p.nstr then p.vec else p.vec ++ text_piece p.nstr ∷ []) s []
    ∙ ap (λ b. b && known s) (ground (arith, text_piece-known p.vec p.nstr))

take_format-known :
    (p : Pieces) (s f : Text)
    → all_known (collect_part p (formatted s f)).vec ≡ (all_known p.vec && known s)
unfolding take_scan
take_format-known p s f =
    directive-known (if is_empty p.nstr then p.vec ++ text_piece p.nstr ∷ [] else p.vec) s f
    ∙ ap (λ b. b && known s) (ground (arith, text_piece-known p.vec p.nstr))

vec_of-known : (p : Pieces) → all_known (vec_of p) ≡ all_known p.vec
unfolding vec_of
vec_of-known p = ground (arith, text_piece-known p.vec p.nstr)

pub collect-known :
    (p : Pieces) (ps : List Part)
    → all_known (vec_of (collect p ps)) ≡ (all_known p.vec && parts_known ps)
collect-known p [] = ground (arith, vec_of-known p)
collect-known p (literal s ∷ ps) = collect-known _ ps
collect-known p (name s ∷ ps) =
    ground (arith, collect-known (collect_part p (name s)) ps, take_name-known p s)
collect-known p (formatted s f ∷ ps) =
    ground (arith, collect-known (collect_part p (formatted s f)) ps, take_format-known p s f)

split-print : (ps : List Part) → Fits ps [] → split (print ps) ≡ collect start ps
split-print ps h = split-Runs (print ps) _ (Runs-print ps [] start _ h (Runs-nil _))

-- A pattern whose parts read back as written is in error exactly when one of its directives is
-- not in the table.
pub is_error-print :
    (ps : List Part) → Fits ps [] → (new (print ps)).is_error ≡ not (parts_known ps)
is_error-print ps h =
    new-is_error (print ps) ∙ rw (split-print ps h, collect-failed start ps, collect-known start ps)

-- Of a pattern whose parts read back as written, a formatter prints the texts and the meanings of
-- the directives in their order, but for a text in front of a directive with braces, which is kept
-- back until the next directive without braces or the end.
pub format-print :
    (w : Printer) (l : Level) (e : Event) (ps : List Part)
    → Fits ps []
    → format w l e (new (print ps)) ≡ delayed w l e [] ps
format-print w l e ps h =
    new-text w l e (print ps) ∙ rw (split-print ps h) (collect-delayed w l e start ps)
