-- ===== src/Log/Level.antt =====
-- `LogLevel` of wb_server/log.h and wb_server/log.cc.
use cpp_wb_server.Common.{ℕ, ◌≡◌, refl, Bool, Text, codes, eq_text, leb, if◌then◌else◌}

-- `enum Level`.
pub data Level : Type 0 where
  unknow debug info warn error fatal : Level

-- The value of an enumerator.
abbrev pub value : Level → ℕ
value unknow = 0
value debug = 1
value info = 2
value warn = 3
value error = 4
value fatal = 5

-- `a <= b` on enumerators.
abbrev pub le : Level → Level → Bool
le a b = leb (value a) (value b)

unfoldable pub to_string : Level → Text
to_string debug = codes "DEBUG"
to_string info = codes "INFO"
to_string warn = codes "WARN"
to_string error = codes "ERROR"
to_string fatal = codes "FATAL"
to_string unknow = codes "UNKNOW"

unfoldable pub from_string : Text → Level
from_string s =
    if eq_text s (codes "debug")
    then debug
    else if eq_text s (codes "info")
    then info
    else if eq_text s (codes "warn")
    then warn
    else if eq_text s (codes "error")
    then error
    else if eq_text s (codes "fatal")
    then fatal
    else if eq_text s (codes "DEBUG")
    then debug
    else if eq_text s (codes "INFO")
    then info
    else if eq_text s (codes "WARN")
    then warn
    else if eq_text s (codes "ERROR")
    then error
    else if eq_text s (codes "FATAL")
    then fatal
    else unknow

-- Every level is read back from its name.
pub from_string-to_string : (l : Level) → from_string (to_string l) ≡ l
unfolding from_string to_string
from_string-to_string unknow = refl
from_string-to_string _ = refl
