-- ===== src/Format.antt =====
-- `str.format` with keyword arguments, as the write paths use it to fill `{name}` and `{vlan}` into
-- the lines of a vendor profile. Conversions and format specifications (`{name!r:>10}`) are read as
-- part of the field's name, and so end in the `KeyError` of an unknown field.
use netbuddy.Base.{
  Text, text, List, [], ◌∷◌, ◌++◌, none, some, ◌==◌, nat_eq, list_eq, if◌then◌else◌, Result, ok,
  raised, Exception,
}
use netbuddy.Base.Dict.{lookup}

-- Where the scan stands: in plain text, behind one brace, or in a field's name.
pub data Mode : Type 0 where
  plain opened closed : Mode
  field_name : Text → Mode

abbrev pub value_error : Exception
value_error = record { type_name = text "ValueError"; message = text "bad format string" }

abbrev pub key_error : Text → Exception
key_error name = record { type_name = text "KeyError"; message = name }

abbrev pub index_error : Exception
index_error = record { type_name = text "IndexError"; message = text "no positional argument" }

abbrev pub prepend : Text → Result Text → Result Text
prepend p (ok s) = ok (p ++ s)
prepend p (raised e) = raised e

abbrev pub fill : List (Text × Text) → Text → Result Text → Result Text
fill args name rest = elim (lookup name args) [
  | none ↦ raised (key_error name)
  | some value ↦ prepend value rest
]

unfoldable pub format_from : List (Text × Text) → Mode → Text → Result Text
format_from args plain [] = ok []
format_from args opened [] = raised value_error
format_from args closed [] = raised value_error
format_from args (field_name name) [] = raised value_error
format_from args plain (c ∷ s) =
    let after_open = format_from args opened s in
    let after_close = format_from args closed s in
    let kept = prepend (c ∷ []) (format_from args plain s) in
    if c == b'{' then after_open else if c == b'}' then after_close else kept
format_from args opened (c ∷ s) =
    let brace = prepend (c ∷ []) (format_from args plain s) in
    let named = format_from args (field_name (c ∷ [])) s in
    if c == b'{' then brace else if c == b'}' then raised index_error else named
format_from args closed (c ∷ s) =
    let brace = prepend (c ∷ []) (format_from args plain s) in
    if c == b'}' then brace else raised value_error
format_from args (field_name name) (c ∷ s) =
    let filled = fill args name (format_from args plain s) in
    let longer = format_from args (field_name (name ++ c ∷ [])) s in
    if c == b'}' then filled else longer

unfoldable pub format : List (Text × Text) → Text → Result Text
unfolding format_from
format args template = format_from args plain template

-- A list comprehension over `format`: the first exception ends it.
unfoldable pub format_all : List (Text × Text) → List Text → Result (List Text)
unfolding format
format_all args [] = ok []
format_all args (t ∷ ts) = elim (format args t) [
  | raised e ↦ raised e
  | ok line ↦ elim (format_all args ts) [ raised e ↦ raised e | ok lines ↦ ok (line ∷ lines) ]
]
