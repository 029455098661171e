-- ===== src/Ifname.antt =====
-- The key under which an interface is known (backend/src/netbuddy/services/ifname.py).
pub mod Aliases
mod Tests
use netbuddy.Base.{
  ℕ, Text, text, lower, strip, is_lower, is_digit, take_while, drop_while, Bool, true, false, not,
  ◌&&◌, List, [], ◌∷◌, ◌++◌, Option, none, some, keep, contains, nat_eq, list_eq, ◌==◌,
  if◌then◌else◌,
}
use netbuddy.Base.Dict.{lookup}

-- `_PREFIX`: the spellings of a prefix and their short form.
abbrev pub prefixes : List (Text × Text)
prefixes =
    (text "ethernet", text "eth")
    ∷ (text "eth", text "eth")
    ∷ (text "gigabitethernet", text "gi")
    ∷ (text "gi", text "gi")
    ∷ (text "tengigabitethernet", text "te")
    ∷ (text "tengige", text "te")
    ∷ (text "te", text "te")
    ∷ (text "fortygigabitethernet", text "fo")
    ∷ (text "hundredgige", text "hu")
    ∷ (text "twentyfivegige", text "twe")
    ∷ (text "fastethernet", text "fa")
    ∷ (text "fa", text "fa")
    ∷ (text "management", text "mgmt")
    ∷ (text "mgmt", text "mgmt")
    ∷ (text "port-channel", text "po")
    ∷ (text "portchannel", text "po")
    ∷ (text "po", text "po")
    ∷ (text "vlan", text "vlan")
    ∷ (text "vl", text "vlan")
    ∷ (text "loopback", text "lo")
    ∷ (text "lo", text "lo")
    ∷ []

abbrev pub newline : ℕ
newline = 10

abbrev pub starts_with_digit : Text → Bool
starts_with_digit [] = false
starts_with_digit (c ∷ s) = is_digit c

abbrev pub is_filled : Text → Bool
is_filled [] = false
is_filled (c ∷ s) = true

abbrev pub name_parts : Text → Text → Option (Text × Text)
name_parts alpha rest =
    if is_filled alpha && (starts_with_digit rest && not (contains newline rest))
    then some (alpha, rest)
    else none

-- `^([a-z]+)(\d.*)$`: letters, then a digit and the rest of the line. The text is stripped, so `$`
-- cannot match before a last line feed, and `.*` reaches the end unless a line feed is inside.
unfoldable pub split_name : Text → Option (Text × Text)
split_name s = name_parts (take_while is_lower s) (drop_while is_lower s)

abbrev pub or_same : Text → Option Text → Text
or_same alpha none = alpha
or_same alpha (some short) = short

abbrev pub canonical : Text → Option (Text × Text) → Text
canonical compact none = compact
canonical compact (some (alpha, rest)) = or_same alpha (lookup alpha prefixes) ++ rest

abbrev pub compact_name : Text → Text
compact_name name = keep (λ c. not (c == b' ')) (lower (strip name))

unfoldable pub normalize_interface_name : Text → Text
unfolding split_name
normalize_interface_name name = canonical (compact_name name) (split_name (compact_name name))
