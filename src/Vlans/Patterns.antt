-- ===== src/Vlans/Patterns.antt =====
-- The regular expressions of `parse_cli_config` (backend/src/netbuddy/services/vlan_survey.py). Each
-- is matched against a line without whitespace at its ends, and most of them in any case of letters.
use netbuddy.Base.{
  ℕ, zero, suc, Text, text, lower, isdigit, is_digit, is_space, starts_with_word_char, int,
  take_while, drop_while, lstrip, strip, starts_with, Bool, false, not, ◌&&◌, ◌||◌, leb, all, any,
  contains, length, drop, List, [], ◌∷◌, ◌++◌, Option, none, some, or_else, nat_eq, list_eq, ◌==◌,
  if◌then◌else◌,
}

-- What follows a prefix, in any case of letters.
unfoldable pub after_prefix : Text → Text → Option Text
after_prefix p s = if starts_with (lower p) (lower s) then some (drop (length p) s) else none

abbrev pub then_match {ℓ} : {A : Type ℓ} → Option Text → (Text → Option A) → Option A
then_match none f = none
then_match (some s) f = f s

-- `\s+`
unfoldable pub after_spaces : Text → Option Text
after_spaces [] = none
after_spaces (c ∷ s) = if is_space c then some (lstrip s) else none

-- A keyword and the rest behind whitespace.
unfoldable pub argument : Text → Text → Option Text
unfolding after_prefix after_spaces
argument keyword s = then_match (after_prefix keyword s) after_spaces

unfoldable pub first_argument : List Text → Text → Option Text
unfolding argument
first_argument [] s = none
first_argument (k ∷ keywords) s = or_else (argument k s) (first_argument keywords s)

-- `(\d+)$`
abbrev pub number : Text → Option ℕ
number s = if isdigit s then some (int s) else none

-- `^interface\s+vlan\s*(\d+)$` or `^interface\s+vlanif\s*(\d+)$`
unfoldable pub svi_line : Text → Option ℕ
unfolding after_prefix argument
svi_line s = then_match (argument (text "interface") s) (λ r.
    or_else (then_match (after_prefix (text "vlan") r) (λ d. number (lstrip d)))
      (then_match (after_prefix (text "vlanif") r) (λ d. number (lstrip d))))

-- `^interface\s+\S`, and `s.split(None, 1)[1]`
abbrev if_present : Text → Option Text
if_present [] = none
if_present (c ∷ s) = some (c ∷ s)

unfoldable pub interface_line : Text → Option Text
unfolding argument
interface_line s = then_match (argument (text "interface") s) if_present

abbrev pub terminators : List Text
terminators = text "!" ∷ text "#" ∷ text "exit" ∷ text "end" ∷ text "return" ∷ []

abbrev pub is_terminator : Text → Bool
is_terminator s = contains s terminators

-- `^config\b`
abbrev ends_word : Option Text → Bool
ends_word none = false
ends_word (some r) = not (starts_with_word_char r)

unfoldable pub is_config_line : Text → Bool
unfolding after_prefix
is_config_line s = ends_word (after_prefix (text "config") s)

-- `[\d,\-\s]+`
abbrev is_list_char : ℕ → Bool
is_list_char c = is_digit c || c == b',' || c == b'-' || is_space c

abbrev is_to_char : ℕ → Bool
is_to_char c = is_digit c || is_space c || contains c (text "toTO")

abbrev starts_with_digit : Text → Bool
starts_with_digit [] = false
starts_with_digit (c ∷ s) = is_digit c

abbrev is_digit_or_space : ℕ → Bool
is_digit_or_space c = is_digit c || is_space c

-- `[\d\s]+(?:to\s+\d+)[\d\s to]*`; of two blanks before it, its first part may take one.
abbrev is_to_rest : Option Text → Bool
is_to_rest none = false
is_to_rest (some r) = starts_with_digit r && all is_to_char r

abbrev is_to_list : Bool → Text → Bool
is_to_list blank r =
    (blank || not (length (take_while is_digit_or_space r) == 0))
    && is_to_rest (argument (text "to") (drop_while is_digit_or_space r))

-- A line's list, and whether at least two blanks stand before it.
abbrev has_two_spaces : Text → Bool
has_two_spaces s = leb 2 (length (take_while is_space s))

abbrev vlan_list : Text → Option Text
vlan_list spaced =
    let r = lstrip spaced in
    if (not (length r == 0) && all is_list_char r) || is_to_list (has_two_spaces spaced) r
    then some r
    else none

abbrev after_word : Text → Text → Option Text
after_word word s = elim (after_prefix word s) [
  | none ↦ none
  | some r ↦ elim (after_spaces r) [ none ↦ none | some rest ↦ some r ]
]

-- `^vlan\s+(?:range\s+|batch\s+)?([\d,\-\s]+|[\d\s]+(?:to\s+\d+)[\d\s to]*)$`
unfoldable pub vlan_line : Text → Option Text
unfolding after_prefix after_spaces argument
vlan_line s = then_match (after_word (text "vlan") s) (λ spaced. or_else (vlan_list spaced) (
    or_else (then_match (after_word (text "range") (lstrip spaced)) vlan_list)
      (then_match (after_word (text "batch") (lstrip spaced)) vlan_list)))

-- `\"?([^\"]+)\"?$`, stripped; two blanks before a lone quotation mark leave it an empty name.
abbrev drop_quote : Text → Text
drop_quote [] = []
drop_quote (c ∷ s) = if c == b'"' then s else c ∷ s

abbrev is_plain : Text → Bool
is_plain s = not (contains b'"' s)

abbrev quoted_rest : Text → Text → Option Text
quoted_rest [] after = none
quoted_rest (c ∷ body) [] = some (strip (c ∷ body))
quoted_rest (c ∷ body) (q ∷ []) = some (strip (c ∷ body))
quoted_rest (c ∷ body) (q ∷ d ∷ after) = none

abbrev quoted : Text → Option Text
quoted spaced =
    let r = drop_quote (lstrip spaced) in
    if lstrip spaced == text "\""
    then (if has_two_spaces spaced then some [] else none)
    else quoted_rest (take_while (λ c. not (c == b'"')) r) (drop_while (λ c. not (c == b'"')) r)

-- `^(?:name|description)\s+\"?([^\"]+)\"?$`
unfoldable pub name_line : Text → Option Text
unfolding after_prefix after_spaces
name_line s =
    or_else (then_match (after_word (text "name") s) quoted)
      (then_match (after_word (text "description") s) quoted)

-- `(\S+)$`
abbrev one_word : Text → Option Text
one_word s = if not (length s == 0) && not (any is_space s) then some s else none

unfoldable pub untagged_line : Text → Option Text
unfolding argument
untagged_line s = then_match (argument (text "untagged") s) one_word

unfoldable pub tagged_line : Text → Option Text
unfolding argument
tagged_line s = then_match (argument (text "tagged") s) one_word

-- `(\d+\.\d+\.\d+\.\d+)` at the start
abbrev dot_then : Text → Text → Option Text → Option Text
dot_then (c ∷ digits) (e ∷ rest) (some address) =
    if e == b'.' then some ((c ∷ digits) ++ e ∷ address) else none
dot_then _ _ _ = none

abbrev dotted : ℕ → Text → Option Text
dotted zero s = if_present (take_while is_digit s)
dotted (suc n) s =
    let rest = drop_while is_digit s in
    dot_then (take_while is_digit s) rest (dotted n (drop 1 rest))

unfoldable pub ipv4 : Text → Option Text
ipv4 s = dotted 3 s

unfoldable pub ip_line : Text → Option Text
unfolding argument ipv4
ip_line s = then_match (argument (text "ip address") s) ipv4

unfoldable pub helper_line : Text → Option Text
unfolding argument ipv4
helper_line s = then_match (argument (text "ip helper-address") s) ipv4

abbrev pub relay_keywords : List Text
relay_keywords =
    text "ip helper-address" ∷ text "dhcp relay server-ip" ∷ text "ip dhcp relay address" ∷ []

unfoldable pub relay_line : Text → Option Text
unfolding first_argument ipv4
relay_line s = then_match (first_argument relay_keywords s) ipv4

abbrev pub access_keywords : List Text
access_keywords = text "switchport access vlan" ∷ text "vlan access" ∷ text "port default vlan" ∷ []

unfoldable pub access_line : Text → Option ℕ
unfolding first_argument
access_line s = then_match (first_argument access_keywords s) number

abbrev pub trunk_keywords : List Text
trunk_keywords =
    text "switchport trunk allowed vlan"
    ∷ text "switchport general allowed vlan"
    ∷ text "vlan trunk allowed"
    ∷ text "port trunk allow-pass vlan"
    ∷ text "port hybrid tagged vlan"
    ∷ []

-- `[\d,\-\s(to)]+`
abbrev is_trunk_char : ℕ → Bool
is_trunk_char c = is_list_char c || contains c (text "(to)TO")

abbrev trunk_list : Text → Option Text
trunk_list r = if not (length r == 0) && all is_trunk_char r then some r else none

unfoldable pub trunk_line : Text → Option Text
unfolding first_argument argument
trunk_line s =
    then_match (first_argument trunk_keywords s)
      (λ r. or_else (trunk_list r) (then_match (argument (text "add") r) trunk_list))
