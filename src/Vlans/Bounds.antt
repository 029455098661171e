-- ===== src/Vlans/Bounds.antt =====
-- How many VLANs a list can stand for.
use netbuddy.Base.{
  ℕ, zero, suc, ◌+◌, ◌-◌, ◌*◌, ◌≤◌, Text, lstrip, strip, is_space, Bool, true, length,
  length-append, keep, List, [], ◌∷◌, ◌++◌, Option, none, some, Bool-cases, inl, inr, All, nat_eq,
  ◌==◌, ◌≡◌, refl, ap, ◌∙◌, arith,
}
use mathlib.Core.List.{reverse, reverse-cons}
use netbuddy.Vlans.Range.{
  match_to, sub_to, is_separator, end_part, parts_from, range, match_range, expand_bounds,
  expand_part, expand_parts, is_vlan_id, expand_vlan_list, expand_vlan_list-All,
}

length-range : (lo n : ℕ) → length (range lo n) ≡ n
length-range lo zero = refl
length-range lo (suc n) = ap suc (length-range (lo + 1) n)

length-expand_bounds : (o : Option (ℕ × ℕ)) (part : Text) → length (expand_bounds o part) ≤ 4095
length-expand_bounds none part = ground arith
length-expand_bounds (some (lo, hi)) part = ground (arith, length-range lo (hi + 1 - lo))

length-expand_parts : (parts : List Text) → length (expand_parts parts) ≤ 4095 * length parts
unfolding expand_parts expand_part
length-expand_parts [] = omega arith
length-expand_parts (part ∷ parts) = omega (
  arith,
  length-append (expand_part part) (expand_parts parts),
  length-expand_bounds (match_range part) part,
  length-expand_parts parts,
)

abbrev begun : Text → ℕ
begun [] = 0
begun (c ∷ s) = 1

length-end_part :
    (w : Text) (parts : List Text) → length (end_part w parts) ≡ begun w + length parts
length-end_part [] parts = omega arith
length-end_part (c ∷ w) parts = omega arith

begun-le : (w : Text) → begun w ≤ 1
begun-le [] = omega arith
begun-le (c ∷ w) = omega arith

length-parts_from : (w s : Text) → length (parts_from w s) ≤ begun w + length s
unfolding parts_from
length-parts_from w [] = omega (arith, length-end_part w [])
length-parts_from w (c ∷ s) = elim (Bool-cases (is_separator c)) [
  | inl ends ↦ rw ends (omega (arith, length-end_part w (parts_from [] s), length-parts_from [] s))
  | inr inside ↦
      rw inside (omega (arith, length-parts_from (w ++ c ∷ []) s, begun-le (w ++ c ∷ [])))
]

length-sub_to : (skip : ℕ) (s : Text) → length (sub_to skip s) ≤ length s
unfolding sub_to
length-sub_to skip [] = omega arith
length-sub_to (suc skip) (c ∷ s) = omega (arith, length-sub_to skip s)
length-sub_to zero (c ∷ s) = elim (Bool-cases (match_to (c ∷ s) == 0)) [
  | inl plain ↦ rw plain (omega (arith, length-sub_to 0 s))
  | inr found ↦ rw found (omega (arith, length-sub_to (match_to (c ∷ s) - 1) s))
]

length-reverse : (s : Text) → length (reverse s) ≡ length s
length-reverse [] = refl
length-reverse (c ∷ s) =
    ap length (reverse-cons c s)
    ∙ omega (arith, length-append (reverse s) (c ∷ []), length-reverse s)

length-lstrip : (s : Text) → length (lstrip s) ≤ length s
length-lstrip [] = omega arith
length-lstrip (c ∷ s) = elim (Bool-cases (is_space c)) [
  | inl blank ↦ rw blank (omega (arith, length-lstrip s))
  | inr other ↦ rw other (omega arith)
]

length-strip : (s : Text) → length (strip s) ≤ length s
length-strip s = omega (
  arith,
  length-reverse (lstrip (reverse (lstrip s))),
  length-lstrip (reverse (lstrip s)),
  length-reverse (lstrip s),
  length-lstrip s,
)

length-keep : (p : ℕ → Bool) (ids : List ℕ) → length (keep p ids) ≤ length ids
length-keep p [] = omega arith
length-keep p (v ∷ ids) = elim (Bool-cases (p v)) [
  | inl kept ↦ rw kept (omega (arith, length-keep p ids))
  | inr left ↦ rw left (omega (arith, length-keep p ids))
]

valid : (ids : List ℕ) → All (λ v. is_vlan_id v ≡ true) ids → All (λ v. (1 ≤ v) × (v ≤ 4094)) ids
valid [] h = tt
valid (v ∷ ids) (id, h) = (ground (arith, id), valid ids h)

-- Whatever a list of VLANs says, it is read as numbers from 1 to 4094, at most 4095 for each of its
-- characters.
pub expand_vlan_list-bounds :
    (spec : Text)
    → All (λ v. (1 ≤ v) × (v ≤ 4094)) (expand_vlan_list spec)
      × (length (expand_vlan_list spec) ≤ 4095 * length spec)
unfolding expand_vlan_list
expand_vlan_list-bounds spec =
    let parts = parts_from [] (sub_to 0 (strip spec)) in
    (
      valid (expand_vlan_list spec) (expand_vlan_list-All spec),
      omega (
        arith,
        length-keep is_vlan_id (expand_parts parts),
        length-expand_parts parts,
        length-parts_from [] (sub_to 0 (strip spec)),
        length-sub_to 0 (strip spec),
        length-strip spec,
      ),
    )
