-- ===== src/Log/Tests.antt =====
-- Runs of the logging code on fixed inputs, and the theorems applied at inputs.
mod Worlds
mod Exports
use cpp_wb_server.Common.{[], ◌∷◌, ◌≡◌, refl, true, codes}
use cpp_wb_server.Common.{not, List, ◌++◌, concat_map, arith}
use cpp_wb_server.Log.Level.{warn}
use cpp_wb_server.Log.Event
use cpp_wb_server.Log.Event.{Event, Site}
use cpp_wb_server.Log.World.{System}
use cpp_wb_server.Log.Pattern.Print.{Part, literal, formatted, print, print_onto}
use cpp_wb_server.Log.Formatter.{Printer, format}
use cpp_wb_server.Log.Formatter.Meaning.{delayed, directive_text}
use cpp_wb_server.Log.Formatter.Errors.{is_error-print, format-print, parts_known}
use cpp_wb_server.Log.Formatter.Order.{
  format-print-InOrder, format_double_percent, is_error-open, part_text,
}
use cpp_wb_server.Log.Formatter.{
  message, level, name, thread_id, new_line, date_time, filename, line, tab, fiber_id, thread_name,
  string, new, default_pattern,
}

new-default :
    (new default_pattern).items
    ≡ string []
      ∷ date_time (codes "%Y-%m-%d %H:%M:%S")
      ∷ tab
      ∷ thread_id
      ∷ tab
      ∷ thread_name
      ∷ tab
      ∷ fiber_id
      ∷ tab
      ∷ string (codes "[")
      ∷ level
      ∷ string (codes "]")
      ∷ tab
      ∷ string (codes "[")
      ∷ name
      ∷ string (codes "]")
      ∷ tab
      ∷ string (codes "<")
      ∷ filename
      ∷ string (codes ":")
      ∷ line
      ∷ string (codes ">")
      ∷ tab
      ∷ message
      ∷ string (codes " ")
      ∷ new_line
      ∷ []
unfolding new
new-default = refl

new-late_text :
    ((new (codes "a%d{x}b")).items ≡ date_time (codes "x") ∷ string (codes "ab") ∷ [])
    × ((new (codes "%%m")).items ≡ string (codes "%") ∷ message ∷ [])
    × ((new (codes "%d{x")).items ≡ string (codes "<<pattern_error>>") ∷ string (codes "d{x") ∷ [])
    × ((new (codes "%d{x")).is_error ≡ true)
    × ((new (codes "%q %")).is_error ≡ true)
unfolding new
new-late_text = (refl, refl, refl, refl, refl)

-- Inputs of the theorems.
abbrev the_site : Site
the_site = record {
  file = codes "a.cc";
  line = 3;
  thread = 7;
  fiber_id = 0;
  time = 12;
  thread_name = codes "main";
}

abbrev the_event : Event
the_event = Event.write (Event.new the_site 0 warn) (codes "hello")

abbrev the_system : System
the_system = record { now = 5; can_open = λ f. true; can_write = λ f. true; print_time = λ f t. f }

abbrev the_printer : Printer
the_printer = record { logger_name = λ l. codes "root"; print_time = λ f t. f }

-- `[%p]%n%d{t}`
abbrev the_parts : List Part
the_parts =
    literal (codes "[")
    ∷ Part.name (codes "p")
    ∷ literal (codes "]")
    ∷ Part.name (codes "n")
    ∷ formatted (codes "d") (codes "t")
    ∷ []

is_error-print_example : (new (print the_parts)).is_error ≡ not (parts_known the_parts)
is_error-print_example = is_error-print the_parts (ground arith)

format-print_example :
    format the_printer warn the_event (new (print the_parts))
    ≡ delayed the_printer warn the_event [] the_parts
format-print_example = format-print the_printer warn the_event the_parts (ground arith)

format-print-InOrder_example :
    format the_printer warn the_event (new (print the_parts))
    ≡ concat_map (part_text the_printer warn the_event) the_parts
format-print-InOrder_example =
    format-print-InOrder the_printer warn the_event the_parts (ground arith) (refl, tt)

-- The text in front of a directive with braces is printed behind it.
text_printed_late :
    format the_printer warn the_event
      (new (print (literal (codes "at ") ∷ formatted (codes "d") (codes "t") ∷ [])))
    ≡ directive_text the_printer warn the_event (codes "d") (codes "t") ++ codes "at "
text_printed_late =
    format-print the_printer warn the_event
      (literal (codes "at ") ∷ formatted (codes "d") (codes "t") ∷ [])
      (ground arith, (ground arith, ground arith, tt))

format_double_percent_example :
    (format the_printer warn the_event (new (print_onto (literal (codes "100") ∷ []) (codes "%%")))
      ≡ codes "100" ++ b'%' ∷ codes "<<error_format %>>")
    × ((new (print_onto (literal (codes "100") ∷ []) (codes "%%"))).is_error ≡ true)
format_double_percent_example =
    format_double_percent the_printer warn the_event (codes "100") (ground arith)

unclosed_brace :
    (new (print_onto (literal (codes "a") ∷ []) (b'%' ∷ (codes "d" ++ b'{' ∷ codes "x")))).is_error
    ≡ true
unclosed_brace =
    is_error-open (literal (codes "a") ∷ []) (codes "d") (codes "x") (ground arith) (ground arith)
      (ground arith) (ground arith)
