-- ===== src/Ifname/Aliases.antt =====
-- Which spellings of an interface share a key.
use mathlib.Core.List.{reverse, reverse-cons, reverse-reverse, map-append, cons≢nil}
use netbuddy.Base.{
  ℕ, Text, text, lower, lower_char, lstrip, strip, is_space, is_upper, is_lower, is_letter,
  is_digit, take_while, drop_while, ◌≡◌, ◌≢◌, refl, ◌∙◌, ap, ap₂, Bool, true, false, not, [], ◌∷◌,
  ◌++◌, some, keep, contains, nat_eq, list_eq, ◌==◌, arith, ◌||◌, all, All, All-append,
}
use netbuddy.Base.Dict.{lookup}
use netbuddy.Ifname.{
  prefixes, normalize_interface_name, compact_name, canonical, name_parts, starts_with_digit,
  split_name, or_same, newline,
}

abbrev NoSpace : Text → Type 0
NoSpace s = All (λ c. is_space c ≡ false) s

abbrev IsWord : Text → Type 0
IsWord s = All (λ c. is_letter c ≡ true) s

-- A character that neither `strip` nor `lower` nor the removal of blanks touches.
abbrev IsPlainChar : ℕ → Type 0
IsPlainChar c = (is_space c ≡ false) × (is_upper c ≡ false)

-- A number such as `1/0/1`: a digit first, and no whitespace or capitals.
abbrev pub IsNumber : Text → Type 0
IsNumber [] = ⊥
IsNumber (c ∷ s) = (is_digit c ≡ true) × All IsPlainChar s

NoSpace-reverse : (s : Text) → NoSpace s → NoSpace (reverse s)
NoSpace-reverse [] h = tt
NoSpace-reverse (c ∷ s) (p, h) =
    rw (reverse-cons c s)
      (All-append (λ d. is_space d ≡ false) (reverse s) (c ∷ []) (NoSpace-reverse s h) (p, tt))

lstrip-NoSpace : (s : Text) → NoSpace s → lstrip s ≡ s
lstrip-NoSpace [] h = refl
lstrip-NoSpace (c ∷ s) (p, h) = rw p

strip-NoSpace : (s : Text) → NoSpace s → strip s ≡ s
strip-NoSpace s h =
    ap (λ t. reverse (lstrip (reverse t))) (lstrip-NoSpace s h)
    ∙ ap reverse (lstrip-NoSpace (reverse s) (NoSpace-reverse s h))
    ∙ reverse-reverse s

abbrev drop_blanks : Text → Text
drop_blanks s = keep (λ c. not (c == b' ')) s

drop_blanks-append : (a b : Text) → drop_blanks (a ++ b) ≡ drop_blanks a ++ drop_blanks b
drop_blanks-append [] b = refl
drop_blanks-append (c ∷ a) b = ground (arith, drop_blanks-append a b)

lower_plain : (c : ℕ) → IsPlainChar c → (lower_char c ≡ c) × (not (c == b' ') ≡ true)
unfolding lower_char
lower_plain c h = ground arith

plain_fixed : (s : Text) → All IsPlainChar s → drop_blanks (lower s) ≡ s
plain_fixed [] h = refl
plain_fixed (c ∷ s) (p, h) =
    let (kept, unblank) = lower_plain c p in rw (kept, unblank) (ap (λ t. c ∷ t) (plain_fixed s h))

letter_lower :
    (c : ℕ)
    → is_letter c ≡ true
    → (is_space c ≡ false) × (is_lower (lower_char c) ≡ true) × (not (lower_char c == b' ') ≡ true)
unfolding lower_char
letter_lower c h = ground arith

word_NoSpace : (p : Text) → IsWord p → NoSpace p
word_NoSpace [] h = tt
word_NoSpace (c ∷ p) (l, h) = ((letter_lower c l).0, word_NoSpace p h)

word_fixed : (p : Text) → IsWord p → drop_blanks (lower p) ≡ lower p
word_fixed [] h = refl
word_fixed (c ∷ p) (l, h) = rw ((letter_lower c l).2) (ap (λ t. lower_char c ∷ t) (word_fixed p h))

digit_plain : (c : ℕ) → is_digit c ≡ true → IsPlainChar c × (is_lower c ≡ false)
digit_plain c h = ground arith

number_plain : (n : Text) → IsNumber n → All IsPlainChar n
number_plain [] h = absurd h
number_plain (c ∷ s) (d, h) = ((digit_plain c d).0, h)

plain_NoSpace : (s : Text) → All IsPlainChar s → NoSpace s
plain_NoSpace [] h = tt
plain_NoSpace (c ∷ s) (p, h) = (p.0, plain_NoSpace s h)

compact_name-word : (p n : Text) → IsWord p → IsNumber n → compact_name (p ++ n) ≡ lower p ++ n
compact_name-word p n w h =
    ap (λ s. drop_blanks (lower s))
      (strip-NoSpace (p ++ n) (
        All-append (λ c. is_space c ≡ false) p n (word_NoSpace p w)
          (plain_NoSpace n (number_plain n h))))
    ∙ ap drop_blanks (map-append lower_char p n)
    ∙ drop_blanks-append (lower p) (lower n)
    ∙ rw (word_fixed p w, plain_fixed n (number_plain n h))

no_newline : (s : Text) → All IsPlainChar s → contains newline s ≡ false
no_newline [] h = refl
no_newline (c ∷ s) (p, h) = ground (arith, no_newline s h)

take_word : (p n : Text) → IsWord p → IsNumber n → take_while is_lower (lower p ++ n) ≡ lower p
take_word [] [] w h = absurd h
take_word [] (c ∷ n) w (d, h) = rw ((digit_plain c d).1)
take_word (c ∷ p) n (l, w) h =
    rw ((letter_lower c l).1) (ap (λ t. lower_char c ∷ t) (take_word p n w h))

drop_word : (p n : Text) → IsWord p → IsNumber n → drop_while is_lower (lower p ++ n) ≡ n
drop_word [] [] w h = absurd h
drop_word [] (c ∷ n) w (d, h) = rw ((digit_plain c d).1)
drop_word (c ∷ p) n (l, w) h = rw ((letter_lower c l).1) (drop_word p n w h)

number_starts : (n : Text) → IsNumber n → starts_with_digit n ≡ true
number_starts [] h = absurd h
number_starts (c ∷ s) (d, h) = d

split_name-word :
    (c : ℕ) (p n : Text)
    → IsWord (c ∷ p)
    → IsNumber n
    → split_name (lower (c ∷ p) ++ n) ≡ some (lower (c ∷ p), n)
unfolding split_name
split_name-word c p n w h =
    ap₂ name_parts (take_word (c ∷ p) n w h) (drop_word (c ∷ p) n w h)
    ∙ rw (number_starts n h, no_newline n (number_plain n h))

-- An interface whose name is letters and a number is known under the short form of the letters, in
-- lower case, and the number: spellings whose letters have one short form share one key.
pub normalize_interface_name-word :
    (p n : Text)
    → p ≢ []
    → IsWord p
    → IsNumber n
    → normalize_interface_name (p ++ n) ≡ or_same (lower p) (lookup (lower p) prefixes) ++ n
unfolding normalize_interface_name
normalize_interface_name-word [] n some_letter w h = absurd (some_letter refl)
normalize_interface_name-word (c ∷ p) n some_letter w h =
    let compact = compact_name-word (c ∷ p) n w h in
    ap₂ canonical compact (ap split_name compact ∙ split_name-word c p n w h)

compact_name-plain : (s : Text) → All IsPlainChar s → compact_name s ≡ s
compact_name-plain s h =
    ap (λ t. drop_blanks (lower t)) (strip-NoSpace s (plain_NoSpace s h)) ∙ plain_fixed s h

All-checked : (p : ℕ → Bool) (s : Text) → all p s ≡ true → All (λ c. p c ≡ true) s
All-checked p [] h = tt
All-checked p (c ∷ s) h = ground (arith, All-checked p s)

plain_checked : (s : Text) → all (λ c. not (is_space c || is_upper c)) s ≡ true → All IsPlainChar s
plain_checked [] h = tt
plain_checked (c ∷ s) h = ground (arith, plain_checked s)

-- A port-channel written with its hyphen has another key than one written without: the entry
-- `port-channel` of the table of prefixes is never found.
pub normalize_interface_name-hyphen :
    (n : Text)
    → IsNumber n
    → (normalize_interface_name (text "port-channel" ++ n) ≡ text "port-channel" ++ n)
      × (normalize_interface_name (text "portchannel" ++ n) ≡ text "po" ++ n)
unfolding normalize_interface_name split_name lower_char
normalize_interface_name-hyphen n h =
    let plain =
      All-append IsPlainChar (text "port-channel") n (plain_checked (text "port-channel") refl)
        (number_plain n h) in
    let compact = compact_name-plain (text "port-channel" ++ n) plain in
    (
      ap (λ s. canonical s (split_name s)) compact,
      normalize_interface_name-word (text "portchannel") n cons≢nil
          (All-checked is_letter (text "portchannel") refl) h,
    )
