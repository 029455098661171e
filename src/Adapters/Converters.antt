-- ===== src/Adapters/Converters.antt =====
-- The converters that a profile names (backend/src/netbuddy/adapters/converters.py). `show` is
-- `str` of a list.
use netbuddy.Base.{
  ℕ, ◌/◌, Text, text, lower, strip, isdigit, is_digit, is_space, int, take_while, drop_while,
  starts_with, Bool, not, ◌||◌, contains, keep, length, List, [], ◌∷◌, Option, none, some, or_else,
  nat_eq, list_eq, ◌==◌, if◌then◌else◌, Result, ok, raised, Exception, then_ok,
}
use netbuddy.Base.Dict.{lookup}
use netbuddy.Hosts.{is_hex}
use netbuddy.Adapters.Values.{Value, null, string, items, of_text, of_number, str}

abbrev pub non_empty : Text → Option Text
non_empty [] = none
non_empty (c ∷ s) = some (c ∷ s)

abbrev pub and_so {ℓ} : {A : Type ℓ} → Option Text → (Text → Option A) → Option A
and_so none f = none
and_so (some s) f = f s

-- `":".join(digits[i:i + 2] …)`
abbrev pub colons : Text → Text
colons [] = []
colons (a ∷ []) = a ∷ []
colons (a ∷ b ∷ []) = a ∷ b ∷ []
colons (a ∷ b ∷ c ∷ s) = a ∷ b ∷ b':' ∷ colons (c ∷ s)

-- `[0-9a-fA-F]`
abbrev pub is_any_hex : ℕ → Bool
is_any_hex c = is_hex c || contains c (text "ABCDEF")

unfoldable pub mac_of_text : Text → Option Text
mac_of_text s =
    let digits = lower (keep is_any_hex s) in
    if length digits == 12 then some (colons digits) else none

abbrev pub placeholders : List Text
placeholders = [] ∷ text "-" ∷ text "--" ∷ text "n/a" ∷ text "none" ∷ text "null" ∷ []

abbrev first_word_of : Text → Text
first_word_of s = take_while (λ c. not (is_space c)) s

abbrev digits_int : Text → Option ℕ
digits_int [] = none
digits_int (c ∷ s) = some (int (c ∷ s))

-- `(\d+)\s*Kbit`, in any case of letters
abbrev kbit_int : Text → Option ℕ
kbit_int s =
    if starts_with (text "kbit") (lower (drop_while is_space (drop_while is_digit s)))
    then digits_int (take_while is_digit s)
    else none

abbrev thousandth : Option ℕ → Option ℕ
thousandth none = none
thousandth (some n) = some (n / 1000)

-- The values of the enumerations (db/models).
abbrev pub enums : List (Text × List Text)
enums =
    (text "AdminStatus", text "up" ∷ text "down" ∷ text "unknown" ∷ [])
    ∷ (
      text "DeviceType",
      text "switch" ∷ text "firewall" ∷ text "router" ∷ text "ap" ∷ text "other" ∷ [],
    )
    ∷ (text "MacEntryType", text "dynamic" ∷ text "static" ∷ text "secure" ∷ [])
    ∷ (text "OperStatus", text "up" ∷ text "down" ∷ text "testing" ∷ text "unknown" ∷ [])
    ∷ []

abbrev pub enum_of : List Text → Text → Option Text → Text
enum_of valid default none = default
enum_of valid default (some s) = if contains (lower s) valid then lower s else default

abbrev pub value_error : Exception
value_error = record { type_name = text "ValueError"; message = [] }

module _ (show : List Text → Text) where
  unfoldable pub strip_or_none : Value → Option Text
  unfolding str
  strip_or_none null = none
  strip_or_none v = non_empty (strip (str show v))

  unfoldable pub first : Value → Value
  unfolding strip_or_none
  first (items []) = null
  first (items (x ∷ xs)) = of_text (strip_or_none (string x))
  first v = of_text (strip_or_none v)

  unfoldable pub first_word : Value → Option Text
  unfolding strip_or_none
  first_word v = and_so (strip_or_none v) (λ s. some (first_word_of s))

  unfoldable pub int_or_none : Value → Option ℕ
  unfolding strip_or_none
  int_or_none v = and_so (strip_or_none v) (λ s. if isdigit s then some (int s) else none)

  unfoldable pub kbit_to_mbps : Value → Option ℕ
  unfolding strip_or_none
  kbit_to_mbps v = and_so (strip_or_none v) (λ s. thousandth (kbit_int s))

  unfoldable pub to_lower : Value → Option Text
  unfolding strip_or_none
  to_lower v = and_so (strip_or_none v) (λ s. some (lower s))

  unfoldable pub leading_int : Value → Option ℕ
  unfolding strip_or_none
  leading_int v = and_so (strip_or_none v) (λ s. digits_int (take_while is_digit s))

  unfoldable pub placeholder_or_none : Value → Option Text
  unfolding strip_or_none
  placeholder_or_none v =
      and_so (strip_or_none v) (λ s. if contains (lower s) placeholders then none else some s)

  unfoldable pub mac_or_none : Value → Option Text
  unfolding str mac_of_text
  mac_or_none null = none
  mac_or_none v = mac_of_text (str show v)

  unfoldable pub mac_or_raw : Value → Option Text
  unfolding mac_or_none strip_or_none
  mac_or_raw v = or_else (mac_or_none v) (strip_or_none v)

  unfoldable pub ip_or_none : Value → Option Text
  unfolding strip_or_none
  ip_or_none v = and_so (strip_or_none v) (λ s. if s == text "0.0.0.0" then none else some s)

  -- The converters without arguments, by name.
  abbrev pub simple : List (Text × (Value → Value))
  simple =
      (text "mac_or_none", λ v. of_text (mac_or_none v))
      ∷ (text "mac_or_raw", λ v. of_text (mac_or_raw v))
      ∷ (text "placeholder_or_none", λ v. of_text (placeholder_or_none v))
      ∷ (text "strip_or_none", λ v. of_text (strip_or_none v))
      ∷ (text "first", first)
      ∷ (text "first_word", λ v. of_text (first_word v))
      ∷ (text "int_or_none", λ v. of_number (int_or_none v))
      ∷ (text "ip_or_none", λ v. of_text (ip_or_none v))
      ∷ (text "kbit_to_mbps", λ v. of_number (kbit_to_mbps v))
      ∷ (text "leading_int", λ v. of_number (leading_int v))
      ∷ (text "lower", λ v. of_text (to_lower v))
      ∷ []

  abbrev pub or_value : Value → Option Value → Value
  or_value default none = default
  or_value default (some v) = v

  abbrev pub look_up : List (Text × Value) → Value → Option Text → Value
  look_up table default none = default
  look_up table default (some s) = or_value default (lookup (lower s) table)

  unfoldable pub make_lookup : List (Text × Value) → Value → Value → Value
  unfolding strip_or_none
  make_lookup table default v = look_up table default (strip_or_none v)

  unfoldable pub make_enum_value : Text → Text → Result (Value → Value)
  unfolding strip_or_none
  make_enum_value values_of default = elim (lookup values_of enums) [
    | none ↦ raised value_error
    | some valid ↦ ok (λ v. string (enum_of valid default (strip_or_none v)))
  ]

-- The arguments of a converter with arguments.
pub data Arguments : Type 0 where
  lookup_arguments : List (Text × Value) → Value → Arguments
  enum_arguments : Text → Text → Arguments

-- A name, or a dictionary from names to arguments.
pub data Spec : Type 0 where
  named : Text → Spec
  with_arguments : List (Text × Arguments) → Spec

-- Arguments of another converter than the one that is named.
abbrev pub type_error : Exception
type_error = record { type_name = text "TypeError"; message = [] }

module _ (show : List Text → Text) where
  abbrev pub found_converter : Option (Value → Value) → Result (Value → Value)
  found_converter none = raised value_error
  found_converter (some f) = ok f

  unfoldable pub call_factory : Text → Arguments → Result (Value → Value)
  unfolding make_lookup make_enum_value
  call_factory name (lookup_arguments table default) =
      if name == text "lookup"
      then ok (make_lookup show table default)
      else (if name == text "enum_value" then raised type_error else raised value_error)
  call_factory name (enum_arguments values_of default) =
      if name == text "enum_value"
      then make_enum_value show values_of default
      else (if name == text "lookup" then raised type_error else raised value_error)

  unfoldable pub build_converter : Spec → Result (Value → Value)
  unfolding call_factory
  build_converter (named name) = found_converter (lookup name (simple show))
  build_converter (with_arguments ((name, args) ∷ [])) = call_factory name args
  build_converter (with_arguments _) = raised value_error

  unfoldable pub apply_pipeline : Value → List Spec → Result Value
  unfolding build_converter
  apply_pipeline v [] = ok v
  apply_pipeline v (spec ∷ specs) =
      then_ok (build_converter spec) (λ convert. apply_pipeline (convert v) specs)
