-- ===== src/Vlans/Range.antt =====
-- Lists of VLANs and of ports, as configurations write them (`_expand_vlan_list`, `_is_catch_all` and
-- `_count_ports` of backend/src/netbuddy/services/vlan_survey.py).
use netbuddy.Base.{
  ℕ, zero, suc, ◌+◌, ◌-◌, Text, text, lower, strip, isdigit, is_digit, is_space, int, take_while,
  drop_while, Bool, true, not, ◌&&◌, ◌||◌, leb, length, take, drop, keep, List, [], ◌∷◌, ◌++◌,
  Option, none, some, nat_eq, ◌==◌, if◌then◌else◌, All, Bool-cases, inl, inr, ◌≡◌, list_eq,
}
use mathlib.Core.List.{reverse}

-- How many characters `\s+to\s+` matches at the start, in any case of letters.
abbrev pub to_length : Text → Text → Text → ℕ
to_length [] word after = 0
to_length (c ∷ before) word [] = 0
to_length (c ∷ before) word (d ∷ after) =
    if lower word == text "to" then length (c ∷ before) + 2 + length (d ∷ after) else 0

unfoldable pub match_to : Text → ℕ
match_to s =
    let rest = drop_while is_space s in
    to_length (take_while is_space s) (take 2 rest) (take_while is_space (drop 2 rest))

-- `re.sub(r"(?i)\s+to\s+", "-", s)`; the number tells how many characters a match has yet to skip.
unfoldable pub sub_to : ℕ → Text → Text
unfolding match_to
sub_to skip [] = []
sub_to (suc skip) (c ∷ s) = sub_to skip s
sub_to zero (c ∷ s) =
    let as_it_is = c ∷ sub_to 0 s in
    let replaced = b'-' ∷ sub_to (match_to (c ∷ s) - 1) s in
    if match_to (c ∷ s) == 0 then as_it_is else replaced

-- `re.split(r"[,\s]+", s)` without the empty parts at the ends, which are no numbers.
abbrev pub is_separator : ℕ → Bool
is_separator c = c == b',' || is_space c

abbrev pub end_part : Text → List Text → List Text
end_part [] parts = parts
end_part (c ∷ s) parts = (c ∷ s) ∷ parts

unfoldable pub parts_from : Text → Text → List Text
parts_from part [] = end_part part []
parts_from part (c ∷ s) =
    let ended = end_part part (parts_from [] s) in
    let longer = parts_from (part ++ c ∷ []) s in if is_separator c then ended else longer

-- `range(lo, lo + n)`
abbrev pub range : ℕ → ℕ → List ℕ
range lo zero = []
range lo (suc n) = lo ∷ range (lo + 1) n

-- `(\d+)-(\d+)`
abbrev pub bounds_in : Text → Text → Option (ℕ × ℕ)
bounds_in lo [] = none
bounds_in lo (c ∷ hi) =
    if isdigit lo && c == b'-' && isdigit hi then some (int lo, int hi) else none

unfoldable pub match_range : Text → Option (ℕ × ℕ)
match_range part = bounds_in (take_while is_digit part) (drop_while is_digit part)

-- `hi - lo <= 4094` also holds where `hi` is the smaller one, and the range is empty then.
abbrev pub expand_bounds : Option (ℕ × ℕ) → Text → List ℕ
expand_bounds none part = if isdigit part then int part ∷ [] else []
expand_bounds (some (lo, hi)) part = if leb hi (lo + 4094) then range lo (hi + 1 - lo) else []

unfoldable pub expand_part : Text → List ℕ
unfolding match_range
expand_part part = expand_bounds (match_range part) part

unfoldable pub expand_parts : List Text → List ℕ
unfolding expand_part
expand_parts [] = []
expand_parts (part ∷ parts) = expand_part part ++ expand_parts parts

abbrev pub is_vlan_id : ℕ → Bool
is_vlan_id v = leb 1 v && leb v 4094

unfoldable pub expand_vlan_list : Text → List ℕ
unfolding sub_to parts_from expand_parts
expand_vlan_list spec = keep is_vlan_id (expand_parts (parts_from [] (sub_to 0 (strip spec))))

-- A trunk of (nearly) all VLANs.
abbrev pub is_catch_all : List ℕ → Bool
is_catch_all ids = leb 1000 (length ids)

keep-All : (p : ℕ → Bool) (ids : List ℕ) → All (λ v. p v ≡ true) (keep p ids)
keep-All p [] = tt
keep-All p (v ∷ ids) = elim (Bool-cases (p v)) [
  | inl kept ↦ rw kept (kept, keep-All p ids)
  | inr left ↦ rw left (keep-All p ids)
]

pub expand_vlan_list-All : (spec : Text) → All (λ v. is_vlan_id v ≡ true) (expand_vlan_list spec)
unfolding expand_vlan_list
expand_vlan_list-All spec =
    keep-All is_vlan_id (expand_parts (parts_from [] (sub_to 0 (strip spec))))

-- `spec.split(",")`
abbrev commas_from : Text → Text → List Text
commas_from part [] = part ∷ []
commas_from part (c ∷ s) =
    let ended = part ∷ commas_from [] s in
    let longer = commas_from (part ++ c ∷ []) s in if c == b',' then ended else longer

-- `(\S+?)-(\S+)$`: up to the first hyphen that is not the first character, and what follows it.
abbrev at_hyphen : Text → Text → Option (Text × Text)
at_hyphen before [] = none
at_hyphen before (c ∷ []) = none
at_hyphen before (c ∷ d ∷ s) =
    let later = at_hyphen (before ++ c ∷ []) (d ∷ s) in
    if c == b'-' then some (before, d ∷ s) else later

abbrev port_range : Text → Option (Text × Text)
port_range [] = none
port_range (c ∷ s) = at_hyphen (c ∷ []) s

-- `s.rsplit("/", 1)[-1]`
abbrev after_slash : Text → Text
after_slash s = reverse (take_while (λ c. not (c == b'/')) (reverse s))

abbrev one_port : Text → ℕ
one_port [] = 0
one_port (c ∷ s) = 1

abbrev ports_between : Text → Text → Text → ℕ
ports_between part a b =
    if isdigit a && isdigit b && leb (int a) (int b) then int b - int a + 1 else one_port part

unfoldable pub ports_in : Text → ℕ
ports_in part = elim (port_range part) [
  | none ↦ one_port part
  | some ends ↦ ports_between part (after_slash ends.0) (after_slash ends.1)
]

abbrev sum_ports : List Text → ℕ
sum_ports [] = 0
sum_ports (part ∷ parts) = ports_in part + sum_ports parts

unfoldable pub count_ports : Text → ℕ
unfolding ports_in
count_ports spec = sum_ports (commas_from [] (keep (λ c. not (c == 32)) spec))
