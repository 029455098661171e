-- ===== src/Base/Strings.antt =====
-- Text as its list of code points, with the methods of Python's `str` that the program uses, for
-- ASCII: `lower`, `strip`, `isdigit`, `split`, `splitlines`, `in` and `startswith`.
use Prim.Native.Nat.{ℕ, ◌+◌, ◌-◌, ◌*◌}
use Prim.Native.Char.{code}
use Prim.Native.String.{String}
use mathlib.Core.Path.{◌≡◌}
use mathlib.Core.Bool.{Bool, true, false, ◌&&◌, ◌||◌}
use mathlib.Core.Option.{Option, none, some}
use mathlib.Core.List.{List, [], ◌∷◌, ◌++◌, map, reverse}
use native.Mathlib.Omega.{arith}
use netbuddy.Base.Tests.{ltb, leb, if◌then◌else◌}
use netbuddy.Base.Lists.{all}
use netbuddy.Base.Keys.{◌==◌, nat_eq}

abbrev pub Text : Type 0
Text = List ℕ

-- The code points of a literal.
abbrev pub text : String → Text
text String.[] = []
text (String.◌∷◌ c s) = code c ∷ text s

-- `s or ""`
abbrev pub or_empty : Option Text → Text
or_empty none = []
or_empty (some s) = s

abbrev pub is_digit : ℕ → Bool
is_digit c = leb b'0' c && leb c b'9'

abbrev pub is_lower : ℕ → Bool
is_lower c = leb b'a' c && leb c b'z'

abbrev pub is_upper : ℕ → Bool
is_upper c = leb b'A' c && leb c b'Z'

abbrev pub is_letter : ℕ → Bool
is_letter c = is_lower c || is_upper c

-- ASCII whitespace as `str.strip`, `str.split` and `\s` see it: tab to carriage return, the four
-- separators, and the blank.
abbrev pub is_space : ℕ → Bool
is_space c = (leb 9 c && leb c 13) || (leb 28 c && leb c 32)

unfoldable pub lower_char : ℕ → ℕ
lower_char c = if is_upper c then c + 32 else c

abbrev pub lower : Text → Text
lower s = map lower_char s

pub lower_char_idem : (c : ℕ) → lower_char (lower_char c) ≡ lower_char c
unfolding lower_char
lower_char_idem c = ground arith

unfoldable pub upper_char : ℕ → ℕ
upper_char c = if is_lower c then c - 32 else c

abbrev pub upper : Text → Text
upper s = map upper_char s

abbrev pub drop_while : (ℕ → Bool) → Text → Text
drop_while p [] = []
drop_while p (c ∷ s) = if p c then drop_while p s else c ∷ s

abbrev pub take_while : (ℕ → Bool) → Text → Text
take_while p [] = []
take_while p (c ∷ s) = if p c then c ∷ take_while p s else []

abbrev pub lstrip : Text → Text
lstrip s = drop_while is_space s

abbrev pub strip : Text → Text
strip s = reverse (lstrip (reverse (lstrip s)))

abbrev pub starts_with : Text → Text → Bool
starts_with [] s = true
starts_with (c ∷ p) [] = false
starts_with (c ∷ p) (d ∷ s) = c == d && starts_with p s

-- `needle in s`
abbrev pub is_infix : Text → Text → Bool
is_infix p [] = starts_with p []
is_infix p (c ∷ s) = starts_with p (c ∷ s) || is_infix p s

-- `str.isdigit`
abbrev pub isdigit : Text → Bool
isdigit [] = false
isdigit (c ∷ s) = is_digit c && all is_digit s

-- `int(s)` for a text of digits
abbrev pub int_from : ℕ → Text → ℕ
int_from n [] = n
int_from n (c ∷ s) = int_from (n * 10 + (c - b'0')) s

abbrev pub int : Text → ℕ
int s = int_from 0 s

-- `str.split()`: the words between runs of whitespace.
abbrev push_word : Text → List Text → List Text
push_word [] ws = ws
push_word (c ∷ s) ws = (c ∷ s) ∷ ws

abbrev pub split_from : Text → Text → List Text
split_from word [] = push_word word []
split_from word (c ∷ s) =
    let ended = push_word word (split_from [] s) in
    let longer = split_from (word ++ c ∷ []) s in if is_space c then ended else longer

abbrev pub split : Text → List Text
split s = split_from [] s

-- `str.splitlines()`; `after_cr` tells that the last character was a carriage return, whose line
-- feed does not end another line.
abbrev pub is_line_end : ℕ → Bool
is_line_end c = (leb 10 c && leb c 13) || (leb 28 c && leb c 30) || c == 133

abbrev pub splitlines_from : Bool → Text → Text → List Text
splitlines_from after_cr line [] = push_word line []
splitlines_from after_cr line (c ∷ s) =
    let skipped = splitlines_from false line s in
    let ended = line ∷ splitlines_from (c == 13) [] s in
    let longer = splitlines_from false (line ++ c ∷ []) s in
    if after_cr && c == 10 then skipped else if is_line_end c then ended else longer

abbrev pub splitlines : Text → List Text
splitlines s = splitlines_from false [] s

-- A character of `\w`, for the word boundaries of regular expressions.
abbrev pub is_word_char : ℕ → Bool
is_word_char c = is_letter c || is_digit c || c == b'_'

abbrev pub starts_with_word_char : Text → Bool
starts_with_word_char [] = false
starts_with_word_char (c ∷ s) = is_word_char c

-- `s < t`
abbrev pub text_lt : Text → Text → Bool
text_lt s [] = false
text_lt [] (d ∷ t) = true
text_lt (c ∷ s) (d ∷ t) = ltb c d || (c == d && text_lt s t)
