-- ===== src/Adapters/Macs.antt =====
-- MAC addresses in the two forms of the program: with colons, in the inventory, and as twelve digits,
-- as the key of a host.
use netbuddy.Base.{
  ℕ, Text, lower, lower_char, true, keep, length, List, [], ◌∷◌, none, some, nat_eq, ◌==◌,
  Bool-cases, inl, inr, if◌then◌else◌, ◌≡◌, refl, sym, ap, ◌∙◌, arith,
}
use mathlib.Core.Option.{some-injective}
use netbuddy.Hosts.{is_hex, normalize_mac}
use netbuddy.Hosts.Mac.{hex, hex-strip, keep-All, hex-of_hex}
use netbuddy.Adapters.Values.{string, str}
use netbuddy.Adapters.Converters.{colons, is_any_hex, mac_of_text, mac_or_none}

any_hex-lower : (c : ℕ) → is_any_hex c ≡ is_hex (lower_char c)
unfolding lower_char
any_hex-lower c = ground arith

lower-keep : (s : Text) → lower (keep is_any_hex s) ≡ hex s
lower-keep [] = refl
lower-keep (c ∷ s) = elim (Bool-cases (is_hex (lower_char c))) [
  | inl digit ↦ rw (any_hex-lower c, digit) (ap (λ t. lower_char c ∷ t) (lower-keep s))
  | inr other ↦ rw (any_hex-lower c, other) (lower-keep s)
]

hex-cons : (c : ℕ) (s t : Text) → hex s ≡ hex t → hex (c ∷ s) ≡ hex (c ∷ t)
hex-cons c s t h = elim (Bool-cases (is_hex (lower_char c))) [
  | inl digit ↦ rw digit (ap (λ r. lower_char c ∷ r) h)
  | inr other ↦ rw other h
]

hex-colons : (s : Text) → hex (colons s) ≡ hex s
unfolding lower_char
hex-colons [] = refl
hex-colons (a ∷ []) = refl
hex-colons (a ∷ b ∷ []) = refl
hex-colons (a ∷ b ∷ c ∷ s) =
    hex-cons a (b ∷ b':' ∷ colons (c ∷ s)) (b ∷ c ∷ s)
      (hex-cons b (b':' ∷ colons (c ∷ s)) (c ∷ s) (hex-colons (c ∷ s)))

normalize_mac-hex : (s : Text) → normalize_mac s ≡ (if length (hex s) == 12 then hex s else [])
unfolding normalize_mac
normalize_mac-hex s = ap (λ t. if length t == 12 then t else []) (hex-strip s)

mac_of_text-hex :
    (s : Text) → mac_of_text s ≡ (if length (hex s) == 12 then some (colons (hex s)) else none)
unfolding mac_of_text
mac_of_text-hex s = ap (λ t. if length t == 12 then some (colons t) else none) (lower-keep s)

hex_twice : (s : Text) → hex (colons (hex s)) ≡ hex s
hex_twice s = hex-colons (hex s) ∙ hex-of_hex (hex s) (keep-All s)

full_form :
    (s : Text)
    → (length (hex s) == 12) ≡ true
    → (normalize_mac (colons (hex s)) ≡ hex s)
      × (mac_of_text (colons (hex s)) ≡ some (colons (hex s)))
full_form s full = (
  normalize_mac-hex (colons (hex s)) ∙ rw (hex_twice s, full) refl,
  mac_of_text-hex (colons (hex s)) ∙ rw (hex_twice s, full) refl,
)

not_empty : (t : Text) → t ≡ [] → (length t == 12) ≡ true → ⊥
not_empty [] e full = absurd (cc)
not_empty (c ∷ t) e full = absurd (cc)

-- The form with colons and the form of twelve digits are read back from each other: what a text has as
-- its form with colons has the same twelve digits as the text, is its own form with colons, and is the
-- twelve digits with colons between their pairs; and a text has no such form exactly if it has no form
-- of twelve digits.
pub mac_or_none-round_trip :
    (show : List Text → Text) (s : Text)
    → ((m : Text)
        → mac_or_none show (string s) ≡ some m
        → (normalize_mac m ≡ normalize_mac s)
          × (m ≡ colons (normalize_mac s))
          × (mac_or_none show (string m) ≡ some m))
      × (mac_or_none show (string s) ≡ none → normalize_mac s ≡ [])
      × (normalize_mac s ≡ [] → mac_or_none show (string s) ≡ none)
unfolding mac_or_none str
mac_or_none-round_trip show s = elim (Bool-cases (length (hex s) == 12)) [
  | inl full ↦
      let digits : normalize_mac s ≡ hex s = normalize_mac-hex s ∙ rw full refl in
      let found : mac_of_text s ≡ some (colons (hex s)) = mac_of_text-hex s ∙ rw full refl in
      (
        λ m h.
            let e : colons (hex s) ≡ m = some-injective (colons (hex s)) m (sym found ∙ h) in
            (
              ap normalize_mac (sym e) ∙ (full_form s full).0 ∙ sym digits,
              sym e ∙ ap colons (sym digits),
              ap mac_of_text (sym e) ∙ (full_form s full).1 ∙ ap some e,
            ),
        λ h. absurd (cc),
        λ h. absurd (not_empty (hex s) (sym digits ∙ h) full),
      )
  | inr short ↦
      let digits : normalize_mac s ≡ [] = normalize_mac-hex s ∙ rw short refl in
      let missing : mac_of_text s ≡ none = mac_of_text-hex s ∙ rw short refl in
      (λ m h. absurd (cc), λ h. digits, λ h. missing)
]
