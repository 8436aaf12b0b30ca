-- ===== src/Log/Pattern.antt =====
-- `LogFormatter::init` of wb_server/log.cc: how a pattern is split into texts and directives.
-- A position `n` of the pattern is the rest of the pattern from there on, so `substr(i + 1, n - i - 1)`
-- is the text that the scan has passed since it began.
pub mod Print
pub mod Runs
use mathlib.Core.WellFounded.{Acc}
use cpp_wb_server.Common.{
  ℕ, zero, suc, ◌<◌, ◌≤◌, Bool, true, false, not, ◌&&◌, List, [], ◌∷◌, ◌++◌, Text, codes, is_empty,
  is_alpha, ◌==◌, if◌then◌else◌, length, arith,
}

-- `fmt_status` 0, 1 and 2.
pub data Status : Type 0 where
  in_name in_format closed : Status

-- What the inner loop leaves: `fmt_status`, `str`, `fmt` and the rest of the pattern at `n`.
pub record Scan : Type 0 where
  pub status : Status
  pub str : Text
  pub fmt : Text
  pub rest : Text

-- The inner loop while `fmt_status` is 1; `passed` is what lies between `fmt_begin` and `n`.
pub scan_format : Text → Text → Text → Scan
scan_format str passed [] = record { status = in_format; str = str; fmt = []; rest = [] }
scan_format str passed (c ∷ cs) =
    let more = scan_format str (passed ++ c ∷ []) cs in
    if c == b'}' then record { status = closed; str = str; fmt = passed; rest = cs } else more

-- The inner loop while `fmt_status` is 0; `passed` is what lies between `i` and `n`.
pub scan_name : Text → Text → Scan
unfolding scan_format
scan_name passed [] = record { status = in_name; str = passed; fmt = []; rest = [] }
scan_name passed (c ∷ cs) =
    let more = scan_name (passed ++ c ∷ []) cs in
    if not (is_alpha c) && not (c == b'{') && not (c == b'}')
    then record { status = in_name; str = passed; fmt = []; rest = c ∷ cs }
    else if c == b'{'
    then scan_format passed [] cs
    else more

-- An element of `vec`, a tuple of a string, its format, and 0 for a text or 1 for a directive.
pub data Kind : Type 0 where
  text directive : Kind

pub record Piece : Type 0 where
  pub str : Text
  pub fmt : Text
  pub kind : Kind

abbrev pub text_piece : Text → Piece
text_piece s = record { str = s; fmt = []; kind = text }

-- The variables of the outer loop: `nstr`, `vec` and `m_error`, with what `substr(i)` was at each
-- parse error that went to `std::cout`.
pub record Pieces : Type 0 where
  pub nstr : Text
  pub vec : List Piece
  pub failed : Bool
  pub reported : List Text

-- The three branches behind the inner loop.
pub take_name : Scan → Pieces → Pieces
take_name s p = record p {
  nstr = [];
  vec =
      (if is_empty p.nstr then p.vec else p.vec ++ text_piece p.nstr ∷ [])
      ++ record { str = s.str; fmt = s.fmt; kind = directive } ∷ [];
}

pub take_error : Scan → Text → Pieces → Pieces
take_error s cs p = record p {
  failed = true;
  reported = p.reported ++ (b'%' ∷ cs) ∷ [];
  vec = p.vec ++ record { str = codes "<<pattern_error>>"; fmt = s.fmt; kind = text } ∷ [];
}

pub take_format : Scan → Pieces → Pieces
take_format s p = record p {
  vec =
      (if is_empty p.nstr then p.vec ++ text_piece p.nstr ∷ [] else p.vec)
      ++ record { str = s.str; fmt = s.fmt; kind = directive } ∷ [];
}

unfoldable pub take_scan : Scan → Text → Pieces → Pieces
unfolding take_name take_error take_format
take_scan s cs p = elim s.status [
  | in_name ↦ take_name s p
  | in_format ↦ take_error s cs p
  | closed ↦ take_format s p
]

-- Where the outer loop goes on: at `n`, and behind the `%` if no `}` was found.
pub resume : Scan → Text → Text
resume s cs = elim s.status [ in_format ↦ cs | _ ↦ s.rest ]

abbrev pub append_nstr : Pieces → ℕ → Pieces
append_nstr p c = record p { nstr = p.nstr ++ c ∷ [] }

abbrev starts_percent : Text → Bool
starts_percent [] = false
starts_percent (c ∷ _) = c == b'%'

-- The order on what is left of the pattern, by which the outer loop ends.
abbrev pub Shorter : Text → Text → Type 0
Shorter s t = length s < length t

scan_format-shorter : (str passed s : Text) → length (scan_format str passed s).rest ≤ length s
unfolding scan_format
scan_format-shorter str passed [] = omega arith
scan_format-shorter str passed (c ∷ cs) =
    ground (arith, scan_format-shorter str (passed ++ c ∷ []) cs)

scan_name-shorter : (passed s : Text) → length (scan_name passed s).rest ≤ length s
unfolding scan_name
scan_name-shorter passed [] = omega arith
scan_name-shorter passed (c ∷ cs) =
    ground (arith, scan_format-shorter passed [] cs, scan_name-shorter (passed ++ c ∷ []) cs)

resume-shorter : (cs : Text) → length (resume (scan_name [] cs) cs) ≤ length cs
unfolding resume
resume-shorter cs = ground (arith, scan_name-shorter [] cs)

shorter_below : (k : ℕ) (s : Text) → length s < k → Acc Shorter s
shorter_below zero s h = elim h [ ]
shorter_below (suc k) s h = Acc.intro s (λ t ht. shorter_below k t (omega arith))

shorter_wf : (s : Text) → Acc Shorter s
unfolding shorter_below
shorter_wf s = shorter_below (suc (length s)) s (omega arith)

-- What one round of the outer loop leaves: the rest of the pattern from the next `i` on, and the
-- variables.
pub record Round : Type 0 where
  pub rest : Text
  pub pieces : Pieces

-- The round at a `%` that no other `%` follows.
scan_round : Text → Pieces → Round
unfolding scan_name take_scan resume
scan_round cs p =
    let s = scan_name [] cs in record { rest = resume s cs; pieces = take_scan s cs p }

-- The body of the outer loop at the byte `c`, with `cs` behind it.
pub round : ℕ → Text → Pieces → Round
unfolding scan_round
round c cs p =
    if not (c == b'%')
    then record { rest = cs; pieces = append_nstr p c }
    else if starts_percent cs
    then record { rest = cs; pieces = append_nstr p b'%' }
    else scan_round cs p

pub round-shorter : (c : ℕ) (cs : Text) (p : Pieces) → Shorter (round c cs p).rest (c ∷ cs)
unfolding round
round-shorter c cs p = ground (arith, resume-shorter cs)

-- The outer loop from the position `i` of the rest on.
pub split_from : (s : Text) → Acc Shorter s → Pieces → Pieces
split_from [] _ p = p
split_from (c ∷ cs) (Acc.intro _ smaller) p =
    let r = round c cs p in split_from r.rest (smaller r.rest (round-shorter c cs p)) r.pieces

unfoldable pub split : Text → Pieces
unfolding round split_from shorter_wf
split s =
    split_from s (shorter_wf s) (record { nstr = []; vec = []; failed = false; reported = [] })

-- The text that is left over goes to the end of `vec`.
unfoldable pub vec_of : Pieces → List Piece
vec_of p = if is_empty p.nstr then p.vec else p.vec ++ text_piece p.nstr ∷ []
