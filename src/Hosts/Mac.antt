-- ===== src/Hosts/Mac.antt =====
-- One form for each MAC address, however a vendor writes it.
use mathlib.Core.List.{reverse, reverse-cons, reverse-reverse}
use netbuddy.Base.{
  ℕ, Text, lower, lower_char, strip, lstrip, is_space, ◌≡◌, refl, sym, ◌∙◌, ap, true, false, [],
  ◌∷◌, ◌++◌, append-nil, arith, keep, length, ◌==◌, nat_eq, nat_beq_iff, if◌then◌else◌, Bool-cases,
  inl, inr, ◌⊎◌, All,
}
use netbuddy.Hosts.{is_hex, normalize_mac}

abbrev pub hex : Text → Text
hex s = keep is_hex (lower s)

hex-append : (a b : Text) → hex (a ++ b) ≡ hex a ++ hex b
hex-append [] b = refl
hex-append (c ∷ a) b = elim (Bool-cases (is_hex (lower_char c))) [
  | inl digit ↦ rw digit (ap (λ s. lower_char c ∷ s) (hex-append a b))
  | inr other ↦ rw other (hex-append a b)
]

space-not_hex : (c : ℕ) → is_space c ≡ true → is_hex (lower_char c) ≡ false
unfolding lower_char
space-not_hex c h = ground arith

hex-lstrip : (s : Text) → hex (lstrip s) ≡ hex s
hex-lstrip [] = refl
hex-lstrip (c ∷ s) = elim (Bool-cases (is_space c)) [
  | inl blank ↦ rw (blank, space-not_hex c blank) (hex-lstrip s)
  | inr other ↦ rw other
]

hex-snoc : (c : ℕ) (s : Text) → reverse (hex s) ++ hex (c ∷ []) ≡ reverse (hex (c ∷ s))
hex-snoc c s = elim (Bool-cases (is_hex (lower_char c))) [
  | inl digit ↦ rw digit (sym (reverse-cons (lower_char c) (hex s)))
  | inr other ↦ rw other (append-nil (reverse (hex s)))
]

hex-reverse : (s : Text) → hex (reverse s) ≡ reverse (hex s)
hex-reverse [] = refl
hex-reverse (c ∷ s) =
    ap hex (reverse-cons c s)
    ∙ hex-append (reverse s) (c ∷ [])
    ∙ ap (λ r. r ++ hex (c ∷ [])) (hex-reverse s)
    ∙ hex-snoc c s

pub hex-strip : (s : Text) → hex (strip s) ≡ hex s
hex-strip s =
    hex-reverse (lstrip (reverse (lstrip s)))
    ∙ ap reverse
        (hex-lstrip (reverse (lstrip s)) ∙ hex-reverse (lstrip s) ∙ ap reverse (hex-lstrip s))
    ∙ reverse-reverse (hex s)

-- Separators do not matter to a MAC address: a character that is no hexadecimal digit in lower case may be left out
-- anywhere.
pub normalize_mac-separator :
    (a b : Text) (c : ℕ)
    → is_hex (lower_char c) ≡ false
    → normalize_mac (a ++ c ∷ b) ≡ normalize_mac (a ++ b)
unfolding normalize_mac
normalize_mac-separator a b c h =
    ap (λ s. if length s == 12 then s else [])
      (hex-strip (a ++ c ∷ b)
        ∙ hex-append a (c ∷ b)
        ∙ rw h (sym (hex-append a b))
        ∙ sym (hex-strip (a ++ b)))

-- Twelve hexadecimal digits in lower case, or nothing.
abbrev pub IsCanonical : Text → Type 0
IsCanonical mac = (mac ≡ []) ⊎ ((length mac ≡ 12) × All (λ c. is_hex c ≡ true) mac)

pub keep-All : (s : Text) → All (λ c. is_hex c ≡ true) (hex s)
keep-All [] = tt
keep-All (c ∷ s) = elim (Bool-cases (is_hex (lower_char c))) [
  | inl digit ↦ rw digit (digit, keep-All s)
  | inr other ↦ rw other (keep-All s)
]

hex_fixed : (c : ℕ) → is_hex c ≡ true → lower_char c ≡ c
unfolding lower_char
hex_fixed c h = ground arith

pub hex-of_hex : (s : Text) → All (λ c. is_hex c ≡ true) s → hex s ≡ s
hex-of_hex [] h = refl
hex-of_hex (c ∷ s) (digit, h) = rw (hex_fixed c digit, digit) (ap (λ r. c ∷ r) (hex-of_hex s h))

-- A normalised address is canonical, and is its own normal form.
pub normalize_mac-IsCanonical :
    (raw : Text)
    → IsCanonical (normalize_mac raw) × (normalize_mac (normalize_mac raw) ≡ normalize_mac raw)
unfolding normalize_mac
normalize_mac-IsCanonical raw = elim (Bool-cases (length (hex (strip raw)) == 12)) [
  | inl full ↦
      let same =
        hex-strip (hex (strip raw)) ∙ hex-of_hex (hex (strip raw)) (keep-All (strip raw)) in
      rw full (
        inr ((nat_beq_iff (length (hex (strip raw))) 12).0 full, keep-All (strip raw)),
        ap (λ s. if length s == 12 then s else []) same ∙ rw full,
      )
  | inr other ↦ rw other (inl refl, refl)
]
