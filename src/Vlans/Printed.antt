-- ===== src/Vlans/Printed.antt =====
-- A list of VLANs, written as ranges and read again.
use netbuddy.Base.{
  ℕ, zero, suc, ◌+◌, ◌-◌, ◌≤◌, Text, decimal, decimal-isdigit, int-decimal, strip, lstrip, is_digit,
  isdigit, is_space, take_while, drop_while, Bool, true, false, not, all, leb, keep, List, [], ◌∷◌,
  ◌++◌, append-nil, append_assoc, All, nat_eq, Bool-cases, inl, inr, ◌≡◌, refl, sym, ap, ap₂, ◌∙◌,
  arith, some,
}
use mathlib.Core.List.{reverse, reverse-cons, reverse-reverse}
use netbuddy.Vlans.Range.{
  match_to, sub_to, is_separator, end_part, parts_from, range, match_range, expand_part,
  expand_parts, is_vlan_id, expand_vlan_list,
}

abbrev pub print_range : ℕ × ℕ → Text
print_range (lo, hi) = decimal lo ++ b'-' ∷ decimal hi

-- The ranges between commas.
abbrev pub print_ranges : List (ℕ × ℕ) → Text
print_ranges [] = []
print_ranges (r ∷ []) = print_range r
print_ranges (r ∷ q ∷ rs) = print_range r ++ b',' ∷ print_ranges (q ∷ rs)

-- The VLANs of the ranges, in their order.
abbrev pub vlans_of : List (ℕ × ℕ) → List ℕ
vlans_of [] = []
vlans_of ((lo, hi) ∷ rs) = range lo (hi + 1 - lo) ++ vlans_of rs

abbrev pub IsVlanRange : ℕ × ℕ → Type 0
IsVlanRange (lo, hi) = (1 ≤ lo) × (lo ≤ hi) × (hi ≤ 4094)

abbrev not_space : ℕ → Bool
not_space c = not (is_space c)

all-append : (p : ℕ → Bool) (s t : Text) → all p s ≡ true → all p t ≡ true → all p (s ++ t) ≡ true
all-append p [] t h k = k
all-append p (c ∷ s) t h k = ground (arith, h, k, all-append p s t)

all-weaken :
    (p q : ℕ → Bool) (s : Text)
    → ((c : ℕ) → p c ≡ true → q c ≡ true)
    → all p s ≡ true
    → all q s ≡ true
all-weaken p q [] f h = refl
all-weaken p q (c ∷ s) f h = ground (arith, h, f c, all-weaken p q s f)

all-reverse : (p : ℕ → Bool) (s : Text) → all p s ≡ true → all p (reverse s) ≡ true
all-reverse p [] h = refl
all-reverse p (c ∷ s) h =
    ap (all p) (reverse-cons c s)
    ∙ all-append p (reverse s) (c ∷ []) (all-reverse p s (ground (arith, h))) (ground (arith, h))

lstrip-all : (s : Text) → all not_space s ≡ true → lstrip s ≡ s
lstrip-all [] h = refl
lstrip-all (c ∷ s) h = let other : is_space c ≡ false = ground (arith, h) in rw other refl

strip-all : (s : Text) → all not_space s ≡ true → strip s ≡ s
strip-all s h =
    ap (λ t. reverse (lstrip (reverse t))) (lstrip-all s h)
    ∙ ap reverse (lstrip-all (reverse s) (all-reverse not_space s h))
    ∙ reverse-reverse s

sub_to-all : (s : Text) → all not_space s ≡ true → sub_to 0 s ≡ s
unfolding sub_to match_to
sub_to-all [] h = refl
sub_to-all (c ∷ s) h =
    let other : is_space c ≡ false = ground (arith, h) in
    rw other (ap (λ t. c ∷ t) (sub_to-all s (ground (arith, h))))

abbrev is_inside : ℕ → Bool
is_inside c = not (is_separator c)

-- A part reaches up to its comma.
parts_from-comma :
    (w p rest : Text)
    → all is_inside p ≡ true
    → parts_from w (p ++ b',' ∷ rest) ≡ end_part (w ++ p) (parts_from [] rest)
unfolding parts_from
parts_from-comma w [] rest h = ap (λ t. end_part t (parts_from [] rest)) (sym (append-nil w))
parts_from-comma w (c ∷ p) rest h =
    let inside : is_separator c ≡ false = ground (arith, h) in
    rw inside (
      parts_from-comma (w ++ c ∷ []) p rest (ground (arith, h))
      ∙ ap (λ t. end_part t (parts_from [] rest)) (append_assoc w (c ∷ []) p))

parts_from-last : (w p : Text) → all is_inside p ≡ true → parts_from w p ≡ end_part (w ++ p) []
unfolding parts_from
parts_from-last w [] h = ap (λ t. end_part t []) (sym (append-nil w))
parts_from-last w (c ∷ p) h =
    let inside : is_separator c ≡ false = ground (arith, h) in
    rw inside (
      parts_from-last (w ++ c ∷ []) p (ground (arith, h))
      ∙ ap (λ t. end_part t []) (append_assoc w (c ∷ []) p))

isdigit-all : (s : Text) → isdigit s ≡ true → all is_digit s ≡ true
isdigit-all [] h = refl
isdigit-all (c ∷ s) h = h

take_while-digits :
    (s t : Text) (c : ℕ)
    → all is_digit s ≡ true
    → is_digit c ≡ false
    → (take_while is_digit (s ++ c ∷ t) ≡ s) × (drop_while is_digit (s ++ c ∷ t) ≡ c ∷ t)
take_while-digits [] t c h k = rw k (refl, refl)
take_while-digits (d ∷ s) t c h k =
    let digit : is_digit d ≡ true = ground (arith, h) in
    let (taken, dropped) = take_while-digits s t c (ground (arith, h)) k in
    rw digit (ap (λ r. d ∷ r) taken, dropped)

match_range-print : (lo hi : ℕ) → match_range (print_range (lo, hi)) ≡ some (lo, hi)
unfolding match_range
match_range-print lo hi =
    let (taken, dropped) =
      take_while-digits (decimal lo) (decimal hi) b'-'
        (isdigit-all (decimal lo) (decimal-isdigit lo)) refl in
    rw (taken, dropped, decimal-isdigit lo, decimal-isdigit hi, int-decimal lo, int-decimal hi) refl

expand_part-print :
    (r : ℕ × ℕ) → IsVlanRange r → expand_part (print_range r) ≡ range r.0 (r.1 + 1 - r.0)
unfolding expand_part
expand_part-print (lo, hi) h =
    let small : leb hi (lo + 4094) ≡ true = ground (arith, h) in
    rw (match_range-print lo hi, small) refl

digit-plain : (c : ℕ) → is_digit c ≡ true → (is_inside c ≡ true) × (not_space c ≡ true)
digit-plain c h = ground arith

print_range-all :
    (p : ℕ → Bool)
    → ((c : ℕ) → is_digit c ≡ true → p c ≡ true)
    → p b'-' ≡ true
    → (r : ℕ × ℕ) → all p (print_range r) ≡ true
print_range-all p digit hyphen (lo, hi) =
    all-append p (decimal lo) (b'-' ∷ decimal hi) (digits lo) (rw hyphen (digits hi))
  where
    digits : (n : ℕ) → all p (decimal n) ≡ true
    digits n = all-weaken is_digit p (decimal n) digit (isdigit-all (decimal n) (decimal-isdigit n))

print_ranges-no_space : (rs : List (ℕ × ℕ)) → all not_space (print_ranges rs) ≡ true
print_ranges-no_space [] = refl
print_ranges-no_space (r ∷ []) = print_range-all not_space (λ c h. (digit-plain c h).1) refl r
print_ranges-no_space (r ∷ q ∷ rs) =
    all-append not_space (print_range r) (b',' ∷ print_ranges (q ∷ rs))
      (print_range-all not_space (λ c h. (digit-plain c h).1) refl r)
      (print_ranges-no_space (q ∷ rs))

end_part-print :
    (r : ℕ × ℕ) (parts : List Text)
    → IsVlanRange r
    → expand_parts (end_part (print_range r) parts)
      ≡ range r.0 (r.1 + 1 - r.0) ++ expand_parts parts
unfolding expand_parts
end_part-print r parts h =
    present (print_range r) parts (decimal-present r)
    ∙ ap (λ ids. ids ++ expand_parts parts) (expand_part-print r h)
  where
    present :
        (p : Text) (parts : List Text)
        → isdigit (take_while is_digit p) ≡ true
        → expand_parts (end_part p parts) ≡ expand_part p ++ expand_parts parts
    present [] parts h = absurd (cc)
    present (c ∷ p) parts h = refl

    decimal-present : (r : ℕ × ℕ) → isdigit (take_while is_digit (print_range r)) ≡ true
    decimal-present (lo, hi) =
        rw
          (take_while-digits (decimal lo) (decimal hi) b'-'
            (isdigit-all (decimal lo) (decimal-isdigit lo)) refl).0
          (decimal-isdigit lo)

expand_parts-print :
    (rs : List (ℕ × ℕ))
    → All IsVlanRange rs
    → expand_parts (parts_from [] (print_ranges rs)) ≡ vlans_of rs
unfolding expand_parts parts_from
expand_parts-print [] h = refl
expand_parts-print (r ∷ []) (h, hs) =
    ap expand_parts (
      parts_from-last [] (print_range r)
        (print_range-all is_inside (λ c k. (digit-plain c k).0) refl r))
    ∙ end_part-print r [] h
expand_parts-print (r ∷ q ∷ rs) (h, hs) =
    ap expand_parts (
      parts_from-comma [] (print_range r) (print_ranges (q ∷ rs))
        (print_range-all is_inside (λ c k. (digit-plain c k).0) refl r))
    ∙ end_part-print r (parts_from [] (print_ranges (q ∷ rs))) h
    ∙ ap (λ ids. range r.0 (r.1 + 1 - r.0) ++ ids) (expand_parts-print (q ∷ rs) hs)

keep-append : (p : ℕ → Bool) (xs ys : List ℕ) → keep p (xs ++ ys) ≡ keep p xs ++ keep p ys
keep-append p [] ys = refl
keep-append p (x ∷ xs) ys = elim (Bool-cases (p x)) [
  | inl kept ↦ rw kept (ap (λ r. x ∷ r) (keep-append p xs ys))
  | inr left ↦ rw left (keep-append p xs ys)
]

keep-range : (lo n : ℕ) → 1 ≤ lo → lo + n ≤ 4095 → keep is_vlan_id (range lo n) ≡ range lo n
keep-range lo zero h k = refl
keep-range lo (suc n) h k =
    let valid : is_vlan_id lo ≡ true = ground (arith, h, k) in
    rw valid (ap (λ r. lo ∷ r) (keep-range (lo + 1) n (omega (arith, h)) (omega (arith, k))))

keep-vlans_of :
    (rs : List (ℕ × ℕ)) → All IsVlanRange rs → keep is_vlan_id (vlans_of rs) ≡ vlans_of rs
keep-vlans_of [] h = refl
keep-vlans_of ((lo, hi) ∷ rs) ((one, le, top), hs) =
    keep-append is_vlan_id (range lo (hi + 1 - lo)) (vlans_of rs)
    ∙ ap₂ (λ a b. a ++ b) (keep-range lo (hi + 1 - lo) one (omega (arith, le, top)))
        (keep-vlans_of rs hs)

-- Ranges of VLANs from 1 to 4094, written with a hyphen and with commas between them, are read as the
-- VLANs of these ranges, in order.
pub expand_vlan_list-print :
    (rs : List (ℕ × ℕ)) → All IsVlanRange rs → expand_vlan_list (print_ranges rs) ≡ vlans_of rs
unfolding expand_vlan_list
expand_vlan_list-print rs h =
    ap (λ s. keep is_vlan_id (expand_parts (parts_from [] (sub_to 0 s))))
      (strip-all (print_ranges rs) (print_ranges-no_space rs))
    ∙ ap (λ s. keep is_vlan_id (expand_parts (parts_from [] s)))
        (sub_to-all (print_ranges rs) (print_ranges-no_space rs))
    ∙ ap (keep is_vlan_id) (expand_parts-print rs h)
    ∙ keep-vlans_of rs h
