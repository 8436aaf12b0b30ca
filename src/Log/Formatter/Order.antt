-- ===== src/Log/Formatter/Order.antt =====
-- The order in which a formatter of wb_server/log.cc prints, and the patterns that its parser
-- misreads.
use cpp_wb_server.Common.{
  ℕ, ◌≡◌, refl, ◌≢◌, ◌∙◌, sym, ap, Bool, true, false, not, ◌||◌, List, [], ◌∷◌, ◌++◌, Text, codes,
  is_empty, All, All-append, All-mono, concat_map, arith, append_assoc, append-nil, concat_map,
}
use cpp_wb_server.Log.Level.{Level}
use cpp_wb_server.Log.Event.{Event}
use cpp_wb_server.Log.Pattern.{Pieces, in_format, take_scan, split, append_nstr}
use cpp_wb_server.Log.Pattern.Print.{
  Part, literal, name, formatted, print, print_onto, Fits, collect, InName, Differs, scanned,
}
use cpp_wb_server.Log.Pattern.Runs.{
  Runs-All, Runs-print, Runs-open, Runs-escape, Runs-end, start, split-Runs,
}
use cpp_wb_server.Log.Formatter.{find_item, new, Printer, format}
use cpp_wb_server.Log.Formatter.Errors.{new-is_error, collect-known, format-print}
use cpp_wb_server.Log.Formatter.Meaning.{delayed, directive_text, new-text, collect-delayed}

-- The parts print in their own order if no text stands in front of a directive with braces;
-- `waiting` says whether a text waits.
abbrev pub InOrder : Bool → List Part → Type 0
InOrder waiting [] = Unit
InOrder waiting (literal s ∷ ps) = InOrder (waiting || not (is_empty s)) ps
InOrder waiting (name s ∷ ps) = InOrder false ps
InOrder waiting (formatted s f ∷ ps) = (waiting ≡ false) × InOrder false ps

-- What a part means.
abbrev pub part_text : Printer → Level → Event → Part → Text
part_text w l e (literal s) = s
part_text w l e (name s) = directive_text w l e s []
part_text w l e (formatted s f) = directive_text w l e s f

not_empty-append : (s t : Text) → not (is_empty (s ++ t)) ≡ (not (is_empty s) || not (is_empty t))
not_empty-append [] t = refl
not_empty-append (c ∷ s) t = refl

delayed-InOrder :
    (w : Printer) (l : Level) (e : Event) (waiting : Text) (ps : List Part)
    → InOrder (not (is_empty waiting)) ps
    → delayed w l e waiting ps ≡ waiting ++ concat_map (part_text w l e) ps
delayed-InOrder w l e waiting [] h = sym (append-nil waiting)
delayed-InOrder w l e waiting (literal s ∷ ps) h =
    delayed-InOrder w l e (waiting ++ s) ps (rw (not_empty-append waiting s) h)
    ∙ append_assoc waiting s _
delayed-InOrder w l e waiting (name s ∷ ps) h =
    ap (λ t. waiting ++ (directive_text w l e s [] ++ t)) (delayed-InOrder w l e [] ps h)
delayed-InOrder w l e [] (formatted s f ∷ ps) h =
    ap (λ t. directive_text w l e s f ++ t) (delayed-InOrder w l e [] ps h.1)
delayed-InOrder w l e (c ∷ s') (formatted s f ∷ ps) h = cc

-- Of a pattern whose parts read back as written, where no text stands directly in front of a
-- directive with braces, a formatter prints the meanings of the parts, one behind the other.
pub format-print-InOrder :
    (w : Printer) (l : Level) (e : Event) (ps : List Part)
    → Fits ps []
    → InOrder false ps
    → format w l e (new (print ps)) ≡ concat_map (part_text w l e) ps
format-print-InOrder w l e ps h o = format-print w l e ps h ∙ delayed-InOrder w l e [] ps o

-- Of `%%` behind a text without `%`, a formatter prints the text, one `%`, and the error text of a
-- directive with no name, and it is in error.
pub format_double_percent :
    (w : Printer) (l : Level) (e : Event) (s : Text)
    → All (Differs b'%') s
    → (format w l e (new (print_onto (literal s ∷ []) (codes "%%")))
        ≡ s ++ b'%' ∷ codes "<<error_format %>>")
      × ((new (print_onto (literal s ∷ []) (codes "%%"))).is_error ≡ true)
unfolding find_item take_scan
format_double_percent w l e s a =
    let p : Pieces = append_nstr (collect start (literal s ∷ [])) b'%' in
    let run : split (s ++ codes "%%") ≡ collect p (name [] ∷ []) = split-Runs (s ++ codes "%%") _ (
      Runs-print (literal s ∷ []) (codes "%%") start _ (a, tt)
        (Runs-escape [] _ _ (Runs-end p _ refl))) in
    (
      new-text w l e (s ++ codes "%%")
          ∙ rw run (collect-delayed w l e p (name [] ∷ []) ∙ append_assoc s (b'%' ∷ []) _),
      new-is_error (s ++ codes "%%") ∙ rw (run, collect-known p (name [] ∷ [])) refl,
    )

InName-differs : (c : ℕ) → InName c → c ≢ b'%'
InName-differs c h = ground arith

-- A directive whose brace is never closed puts the formatter in error, whatever parts that read
-- back as written stand in front, if no `%` stands behind the brace.
pub is_error-open :
    (ps : List Part) (n f : Text)
    → Fits ps (b'%' ∷ (n ++ b'{' ∷ f))
    → All InName n
    → All (Differs b'}') f
    → All (Differs b'%') f
    → (new (print_onto ps (b'%' ∷ (n ++ b'{' ∷ f)))).is_error ≡ true
unfolding take_scan
is_error-open ps n f h a b c =
    let r : Text = n ++ b'{' ∷ f in
    let p : Pieces = take_scan (scanned in_format n [] []) (n ++ b'{' ∷ f) (collect start ps) in
    let word : All (Differs b'%') r =
      All-append _ n (b'{' ∷ f) (All-mono _ _ n InName-differs a)
        ((λ eq. absurd (omega arith)), c) in
    new-is_error (print_onto ps (b'%' ∷ r))
    ∙ rw
        (split-Runs (print_onto ps (b'%' ∷ r)) _
          (Runs-print ps (b'%' ∷ r) start _ h (Runs-open n f _ _ a b (Runs-All r p word))))
        refl
