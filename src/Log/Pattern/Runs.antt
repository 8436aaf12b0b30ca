-- ===== src/Log/Pattern/Runs.antt =====
-- The loop of `LogFormatter::init` (wb_server/log.cc), one round at a time.
use cpp_wb_server.Common.{
  ℕ, ◌≡◌, refl, ◌≢◌, ◌∙◌, true, false, List, [], ◌∷◌, ◌++◌, Text, All, append_assoc, append-nil,
  arith, ==_ne,
}
use cpp_wb_server.Log.Pattern.{
  Scan, in_name, in_format, closed, Pieces, scan_name, take_scan, resume, append_nstr,
  starts_percent, Shorter, split_from, split, shorter_wf, round, round-shorter,
}
use cpp_wb_server.Log.Pattern.Print.{
  Part, literal, name, formatted, print_part, print_onto, InName, Differs, stops, Fits,
  collect_part, collect, scanned, scan_name-word, scan_name-stop, scan_name-brace,
  scan_format-close, scan_format-open,
}
use mathlib.Core.WellFounded.{Acc}

-- The loop turns `p` into `r` over the rest `s` of the pattern.
abbrev pub Runs : Text → Pieces → Pieces → Type 0
Runs s p r = (w : Acc Shorter s) → split_from s w p ≡ r

pub Runs-nil : (p : Pieces) → Runs [] p p
unfolding split_from
Runs-nil p w = refl

Runs-round :
    (c : ℕ) (cs : Text) (p r : Pieces)
    → Runs (round c cs p).rest (round c cs p).pieces r
    → Runs (c ∷ cs) p r
unfolding split_from
Runs-round c cs p r k (Acc.intro _ smaller) = k (smaller _ (round-shorter c cs p))

Runs-char :
    (c : ℕ) (cs : Text) (p r : Pieces) → c ≢ b'%' → Runs cs (append_nstr p c) r → Runs (c ∷ cs) p r
unfolding round
Runs-char c cs p r h k = Runs-round c cs p r (rw (==_ne c b'%' h) k)

pub Runs-escape :
    (cs : Text) (p r : Pieces)
    → Runs (b'%' ∷ cs) (append_nstr p b'%') r
    → Runs (b'%' ∷ b'%' ∷ cs) p r
unfolding round
Runs-escape cs p r k = Runs-round b'%' (b'%' ∷ cs) p r k

Runs-scan :
    (cs : Text) (s : Scan) (p r : Pieces)
    → starts_percent cs ≡ false
    → scan_name [] cs ≡ s
    → Runs (resume s cs) (take_scan s cs p) r
    → Runs (b'%' ∷ cs) p r
unfolding round
Runs-scan cs s p r h e k = Runs-round b'%' cs p r (rw (h, e) k)

Runs-word :
    (s rest : Text) (p r : Pieces)
    → All (Differs b'%') s
    → Runs rest (record p { nstr = p.nstr ++ s }) r
    → Runs (s ++ rest) p r
Runs-word [] rest p r h k = rw append-nil at k
Runs-word (c ∷ s) rest p r h k =
    Runs-char c (s ++ rest) p r h.0
      (Runs-word s rest (append_nstr p c) r h.1 (rw (append_assoc p.nstr (c ∷ []) s) k))

pub Runs-All :
    (s : Text) (p : Pieces) → All (Differs b'%') s → Runs s p (record p { nstr = p.nstr ++ s })
Runs-All s p h = rw (append-nil s) at (Runs-word s [] p _ h (Runs-nil _))

word_no_percent : (s rest : Text) → s ≢ [] → All InName s → starts_percent (s ++ rest) ≡ false
word_no_percent [] rest h a = absurd (h refl)
word_no_percent (c ∷ s) rest h a = ground arith

brace_no_percent : (s rest : Text) → All InName s → starts_percent (s ++ b'{' ∷ rest) ≡ false
brace_no_percent [] rest a = refl
brace_no_percent (c ∷ s) rest a = ground arith

Runs-name :
    (s rest : Text) (p r : Pieces)
    → s ≢ []
    → All InName s
    → stops rest ≡ true
    → Runs rest (collect_part p (name s)) r
    → Runs (b'%' ∷ (s ++ rest)) p r
unfolding take_scan resume
Runs-name s rest p r ne a st k =
    Runs-scan (s ++ rest) (scanned in_name s [] rest) p r (word_no_percent s rest ne a)
      (scan_name-word s [] rest a ∙ scan_name-stop s rest st) k

Runs-formatted :
    (s f rest : Text) (p r : Pieces)
    → All InName s
    → All (Differs b'}') f
    → Runs rest (collect_part p (formatted s f)) r
    → Runs (print_part (formatted s f) ++ rest) p r
unfolding take_scan resume
Runs-formatted s f rest p r a b k =
    rw (append_assoc s (b'{' ∷ (f ++ b'}' ∷ [])) rest, append_assoc f (b'}' ∷ []) rest)
      (Runs-scan (s ++ b'{' ∷ (f ++ b'}' ∷ rest)) (scanned closed s f rest) p r
        (brace_no_percent s _ a)
        (scan_name-brace s (f ++ b'}' ∷ rest) a ∙ scan_format-close f s [] rest b) k)

-- Parts that fit are collected one by one, and the loop goes on with what follows them.
pub Runs-print :
    (ps : List Part) (rest : Text) (p r : Pieces)
    → Fits ps rest
    → Runs rest (collect p ps) r
    → Runs (print_onto ps rest) p r
Runs-print [] rest p r h k = k
Runs-print (literal s ∷ ps) rest p r h k =
    Runs-word s (print_onto ps rest) p r h.0 (Runs-print ps rest _ r h.1 k)
Runs-print (name s ∷ ps) rest p r h k =
    Runs-name s (print_onto ps rest) p r h.0 h.1 h.2 (Runs-print ps rest _ r h.3 k)
Runs-print (formatted s f ∷ ps) rest p r h k =
    Runs-formatted s f (print_onto ps rest) p r h.0 h.1 (Runs-print ps rest _ r h.2 k)

-- A directive whose brace is not closed: the error text is put in front of what is pending, and
-- the parser goes on right behind the `%`.
pub Runs-open :
    (s f : Text) (p r : Pieces)
    → All InName s
    → All (Differs b'}') f
    → Runs (s ++ b'{' ∷ f) (take_scan (scanned in_format s [] []) (s ++ b'{' ∷ f) p) r
    → Runs (b'%' ∷ (s ++ b'{' ∷ f)) p r
unfolding resume
Runs-open s f p r a b k =
    Runs-scan (s ++ b'{' ∷ f) (scanned in_format s [] []) p r (brace_no_percent s f a)
      (scan_name-brace s f a ∙ scan_format-open f s [] b) k

-- A `%` at the end of the pattern.
pub Runs-end : (p r : Pieces) → take_scan (scanned in_name [] [] []) [] p ≡ r → Runs (b'%' ∷ []) p r
unfolding resume split_from
Runs-end p r e =
    Runs-scan [] (scanned in_name [] [] []) p r refl (scan_name-stop [] [] refl) (λ w. e)

abbrev pub start : Pieces
start = record { nstr = []; vec = []; failed = false; reported = [] }

pub split-Runs : (s : Text) (r : Pieces) → Runs s start r → split s ≡ r
unfolding split shorter_wf
split-Runs s r k = k (shorter_wf s)
