-- ===== src/Adapters/Values.antt =====
-- The values of a parsed row, which are texts or lists of texts, and those of a profile
-- (backend/src/netbuddy/adapters/converters.py).
use netbuddy.Base.{ℕ, Text, text, decimal, Bool, true, false, List, Option, none, some}

pub data Value : Type 0 where
  null : Value
  boolean : Bool → Value
  number : ℕ → Value
  string : Text → Value
  items : List Text → Value

abbrev pub is_null : Value → Bool
is_null null = true
is_null _ = false

-- Of a result that is a text or `None`, and of one that is a number or `None`.
abbrev pub of_text : Option Text → Value
of_text none = null
of_text (some s) = string s

abbrev pub of_number : Option ℕ → Value
of_number none = null
of_number (some n) = number n

-- `str(value)`; the text of a list is a parameter.
unfoldable pub str : (List Text → Text) → Value → Text
unfolding decimal
str show null = text "None"
str show (boolean true) = text "True"
str show (boolean false) = text "False"
str show (number n) = decimal n
str show (string s) = s
str show (items xs) = show xs
