-- ===== src/Poe/Parse.antt =====
-- The parsers of `show power inline` and `show interfaces status` of a Dell N-Series switch
-- (backend/src/netbuddy/services/poe.py). The regular expressions are written out as matchers;
-- each is deterministic, since what follows a repetition never begins with what it repeats.
pub mod Tables
use netbuddy.Base.{
  ℕ, suc, Text, text, lower, is_letter, is_digit, is_space, starts_with, starts_with_word_char,
  drop_while, take_while, drop, length, isdigit, int, split, splitlines, is_infix, is_word_char,
  Bool, true, false, not, ◌&&◌, ◌||◌, List, [], ◌∷◌, ◌++◌, Option, none, some, any, contains,
  nat_eq, list_eq, ◌==◌, if◌then◌else◌, or_else,
}
use netbuddy.Base.Dict.{lookup, insert}
use netbuddy.Poe.Port.{PoePort}

-- `\d+` at the front: the digits, and the rest.
abbrev digits : Text → Option (Text × Text)
digits s =
    let ds = take_while is_digit s in
    elim ds [ [] ↦ none | d ∷ more ↦ some (d ∷ more, drop_while is_digit s) ]

abbrev slash : Text → Option Text
slash [] = none
slash (c ∷ s) = if c == b'/' then some s else none

abbrev bind {ℓ κ} : {A : Type ℓ} {B : Type κ} → Option A → (A → Option B) → Option B
bind none f = none
bind (some a) f = f a

-- `\d+/\d+/\d+` at the front.
abbrev numbers : Text → Option (Text × Text)
numbers s = bind (digits s) λ (slot, s1). bind (slash s1) λ s2. bind (digits s2) λ (card, s3).
    bind (slash s3)
      λ s4. bind (digits s4) λ (number, s5). some (slot ++ b'/' ∷ (card ++ b'/' ∷ number), s5)

-- `[A-Za-z]{2}\d+/\d+/\d+` at the front: the port's name, and the rest.
unfoldable pub port_name : Text → Option (Text × Text)
port_name (a ∷ b ∷ s) =
    if is_letter a && is_letter b
    then (bind (numbers s) λ (name, after). some (a ∷ b ∷ name, after))
    else none
port_name _ = none

-- `\s+(.*)$`: the text behind the whitespace.
abbrev after_spaces : Text → Option Text
after_spaces [] = none
after_spaces (c ∷ s) = if is_space c then some (drop_while is_space s) else none

-- `^\s*([A-Za-z]{2}\d+/\d+/\d+)\s+(.*)$` on one line.
unfoldable pub match_port : Text → Option (Text × Text)
unfolding port_name
match_port line =
    bind (port_name (drop_while is_space line))
      λ (port, after). bind (after_spaces after) λ rest. some (port, rest)

-- A whole word at the front of a text.
abbrev word_at : Text → Text → Bool
word_at word s = starts_with word s && not (starts_with_word_char (drop (length word) s))

-- `re.search` for one of some words between word boundaries: the text from the first place on.
-- `fold` is `lower` under `re.IGNORECASE`.
unfoldable pub search_word : (Text → Text) → List Text → Bool → Text → Option Text
search_word fold words inside [] = none
search_word fold words inside (c ∷ s) =
    let found = not inside && any (λ w. word_at w (fold (c ∷ s))) words in
    let later = search_word fold words (is_word_char c) s in if found then some (c ∷ s) else later

abbrev pub state_words : List Text
state_words = text "auto" ∷ text "never" ∷ text "off" ∷ []

abbrev pub link_words : List Text
link_words = text "Up" ∷ text "Down" ∷ []

abbrev last : List Text → Text
last [] = []
last (w ∷ []) = w
last (w ∷ v ∷ ws) = last (v ∷ ws)

-- The columns from the state on: state, priority, status, then the class and the power, if any.
unfoldable pub read_columns : Text → List Text → Option PoePort
read_columns port (state ∷ priority ∷ status ∷ more) = some (record {
  port = port;
  poe_state = some (lower state);
  poe_status = status;
  poe_class = elim more [ [] ↦ none | w ∷ _ ↦ if contains b'/' w then some w else none ];
  power_mw = let w = last (status ∷ more) in if isdigit w then some (int w) else none;
  link_up = none;
})
read_columns port _ = none

-- One line of `show power inline`: the port, if the line has one and a state column.
unfoldable pub power_line : Text → Option PoePort
unfolding match_port search_word read_columns
power_line line = bind (match_port line) λ (port, rest).
    bind (search_word lower state_words false rest) λ columns. read_columns port (split columns)

abbrev pub add_power : Option PoePort → List (Text × PoePort) → List (Text × PoePort)
add_power none ports = ports
add_power (some p) ports = insert p.port p ports

-- The loop over the lines, which fills a dictionary in order.
unfoldable pub power_lines : List (Text × PoePort) → List Text → List (Text × PoePort)
unfolding power_line
power_lines ports [] = ports
power_lines ports (line ∷ lines) = power_lines (add_power (power_line line) ports) lines

unfoldable pub parse_dell_os6_power : Text → List (Text × PoePort)
unfolding power_lines
parse_dell_os6_power output = power_lines [] (splitlines output)

-- One line of `show interfaces status`: the port, and whether its link is up.
unfoldable pub link_line : Text → Option (Text × Bool)
unfolding match_port search_word
link_line line = bind (match_port line) λ (port, rest).
    bind (search_word (λ s. s) link_words false rest)
      λ found. some (port, word_at (text "Up") found)

abbrev pub add_link : Option (Text × Bool) → List (Text × Bool) → List (Text × Bool)
add_link none links = links
add_link (some (port, up)) links = insert port up links

unfoldable pub link_lines : List (Text × Bool) → List Text → List (Text × Bool)
unfolding link_line
link_lines links [] = links
link_lines links (line ∷ lines) = link_lines (add_link (link_line line) links) lines

unfoldable pub parse_dell_os6_link : Text → List (Text × Bool)
unfolding link_lines
parse_dell_os6_link output = link_lines [] (splitlines output)

-- A parser of the registry, by its key.
pub record Parser : Type 0 where
  pub power : Text → List (Text × PoePort)
  pub link : Text → List (Text × Bool)

unfoldable pub parsers : List (Text × Parser)
unfolding parse_dell_os6_power parse_dell_os6_link
parsers =
    (text "dell_os6", record { power = parse_dell_os6_power; link = parse_dell_os6_link }) ∷ []

abbrev pub no_poe_markers : List Text
no_poe_markers =
    text "doesn't support poe"
    ∷ text "does not support poe"
    ∷ text "invalid input"
    ∷ text "incomplete"
    ∷ []

unfoldable pub has_no_poe : Text → Bool
has_no_poe output = any (λ marker. is_infix marker (lower output)) no_poe_markers
