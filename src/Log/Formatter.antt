-- ===== src/Log/Formatter.antt =====
-- `LogFormatter` of wb_server/log.h and wb_server/log.cc, with the items that print an event.
pub mod Meaning
pub mod Errors
pub mod Order
use cpp_wb_server.Common.{
  map, ℕ, Bool, true, List, [], ◌∷◌, ◌++◌, Option, none, some, Text, codes, eq_text, is_empty,
  if◌then◌else◌, decimal, decimal_int32,
}
use cpp_wb_server.Log.Level
use cpp_wb_server.Log.Level.{Level}
use cpp_wb_server.Log.Event.{Event}
use cpp_wb_server.Log.Pattern.{Piece, text, directive, split, vec_of}

-- The subclasses of `FormatItem`; the two that keep a text of their own hold it.
pub data Item : Type 0 where
  message level elapse name thread_id new_line : Item
  date_time : Text → Item
  filename line tab fiber_id thread_name : Item
  string : Text → Item

abbrev pub default_date : Text
default_date = codes "%Y-%m-%d %H:%M:%S"

-- The constructor of `DateTimeFormatItem`.
date_time_item : Text → Item
date_time_item fmt = date_time (if is_empty fmt then default_date else fmt)

-- `s_format_items.find(str)`, and the call of what it holds with `fmt`.
unfoldable pub find_item : Text → Text → Option Item
unfolding date_time_item
find_item str fmt =
    if eq_text str (codes "m")
    then some message
    else if eq_text str (codes "p")
    then some level
    else if eq_text str (codes "r")
    then some elapse
    else if eq_text str (codes "c")
    then some name
    else if eq_text str (codes "t")
    then some thread_id
    else if eq_text str (codes "n")
    then some new_line
    else if eq_text str (codes "d")
    then some (date_time_item fmt)
    else if eq_text str (codes "f")
    then some filename
    else if eq_text str (codes "l")
    then some line
    else if eq_text str (codes "T")
    then some tab
    else if eq_text str (codes "F")
    then some fiber_id
    else if eq_text str (codes "N")
    then some thread_name
    else none

-- The members of `LogFormatter`, with the lines that `init` prints to `std::cout`.
pub record Formatter : Type 0 where
  pub pattern : Text
  pub items : List Item
  pub is_error : Bool
  pub reports : List Text

abbrev pub parse_error : Text → Text → Text
parse_error pattern rest =
    codes "pattern parseerror: " ++ (pattern ++ (codes " - " ++ (rest ++ codes "\n")))

abbrev pub error_text : Text → Text
error_text str = codes "<<error_format %" ++ (str ++ codes ">>")

abbrev push_item : Formatter → Item → Formatter
push_item f i = record f { items = f.items ++ i ∷ [] }

-- The body of the last loop of `init`.
add_piece : Formatter → Piece → Formatter
add_piece f p = elim p.kind [
  | text ↦ push_item f (string p.str)
  | directive ↦ elim (find_item p.str p.fmt) [
    | none ↦ push_item (record f { is_error = true }) (string (error_text p.str))
    | some i ↦ push_item f i
  ]
]

add_pieces : Formatter → List Piece → Formatter
unfolding add_piece
add_pieces f [] = f
add_pieces f (p ∷ ps) = add_pieces (add_piece f p) ps

-- `LogFormatter::LogFormatter` with `init`.
unfoldable pub new : Text → Formatter
unfolding add_pieces split vec_of find_item
new pattern =
    let p = split pattern in
    add_pieces
      (record {
        pattern = pattern;
        items = [];
        is_error = p.failed;
        reports = map (parse_error pattern) p.reported;
      })
      (vec_of p)

-- What the items ask of the rest of the program: the name of a logger, and `strftime` of the
-- local time, as the text that it leaves in its buffer.
pub record Printer : Type 0 where
  pub logger_name : ℕ → Text
  pub print_time : Text → ℕ → Text

-- `FormatItem::format` of each class.
unfoldable pub format_item : Printer → Level → Event → Item → Text
format_item w l e message = e.content
format_item w l e level = Level.to_string l
format_item w l e elapse = decimal e.elapse
format_item w l e name = w.logger_name e.logger
format_item w l e thread_id = decimal_int32 e.thread
format_item w l e new_line = codes "\n"
format_item w l e (date_time fmt) = w.print_time fmt e.time
format_item w l e filename = e.file
format_item w l e line = decimal_int32 e.line
format_item w l e tab = codes "\t"
format_item w l e fiber_id = decimal e.fiber_id
format_item w l e thread_name = e.thread_name
format_item w l e (string s) = s

-- The stream `ss` of `LogFormatter::format`.
format_items : Printer → Level → Event → Text → List Item → Text
unfolding format_item
format_items w l e ss [] = ss
format_items w l e ss (i ∷ is) = format_items w l e (ss ++ format_item w l e i) is

unfoldable pub format : Printer → Level → Event → Formatter → Text
unfolding format_items
format w l e f = format_items w l e [] f.items

-- The pattern that `Logger::Logger` gives.
abbrev pub default_pattern : Text
default_pattern = codes "%d{%Y-%m-%d %H:%M:%S}%T%t%T%N%T%F%T[%p]%T[%c]%T<%f:%l>%T%m %n"
