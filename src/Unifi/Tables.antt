-- ===== src/Unifi/Tables.antt =====
-- Counts of the rows of a table, when a row is added or changed, and queries for one row.
use netbuddy.Base.{
  ◌+◌, ◌≤◌, Text, Bool, true, false, count_if, count_if-append, keep, length, List, [], ◌∷◌, ◌++◌,
  none, some, nat_eq, list_eq, if◌then◌else◌, All, ok, Bool-cases, inl, inr, ◌⊎◌, ◌≡◌, refl, ap,
  arith,
}
use netbuddy.Inventory.{Device}
use netbuddy.Unifi.Import.{is_active, one_or_none, change_named}

pub length-keep : {A : Type 0} (p : A → Bool) (xs : List A) → length (keep p xs) ≡ count_if p xs
length-keep p [] = refl
length-keep p (x ∷ xs) = ground (arith, length-keep p xs)

pub All-keep :
    {A : Type 0} (P : A → Type 0) (p : A → Bool) (xs : List A) → All P xs → All P (keep p xs)
All-keep P p [] h = tt
All-keep P p (x ∷ xs) (h, k) = elim (Bool-cases (p x)) [
  | inl kept ↦ rw kept (h, All-keep P p xs k)
  | inr left_out ↦ rw left_out (All-keep P p xs k)
]

-- A query for at most one row that finds at most one.
pub one_or_none-le :
    {A : Type 0} (P : A → Type 0) (xs : List A)
    → length xs ≤ 1
    → All P xs
    → ((one_or_none xs ≡ ok none) × (length xs ≡ 0))
      ⊎ ((x : A) × (one_or_none xs ≡ ok (some x)) × P x)
one_or_none-le P [] h k = inl (refl, refl)
one_or_none-le P (x ∷ []) h (k, _) = inr (x, refl, k)
one_or_none-le P (x ∷ y ∷ xs) h k = absurd (omega (arith, h))

pub count_if-change_named :
    (n name : Text) (f : Device → Device) (ds : List Device)
    → ((d : Device) → is_active n (f d) ≡ is_active n d)
    → count_if (is_active n) (change_named name f ds) ≡ count_if (is_active n) ds
count_if-change_named n name f [] h = refl
count_if-change_named n name f (d ∷ ds) h = elim (Bool-cases (is_active name d)) [
  | inl here ↦ rw here (ap (λ b. (if b then 1 else 0) + count_if (is_active n) ds) (h d))
  | inr other ↦
      rw other
        (ap (λ k. (if is_active n d then 1 else 0) + k) (count_if-change_named n name f ds h))
]

pub length-change_named :
    (name : Text) (f : Device → Device) (ds : List Device)
    → length (change_named name f ds) ≡ length ds
length-change_named name f [] = refl
length-change_named name f (d ∷ ds) = ground (arith, length-change_named name f ds)

pub All-change_named :
    (P : Device → Type 0) (name : Text) (f : Device → Device) (ds : List Device)
    → ((d : Device) → P d → P (f d))
    → All P ds
    → All P (change_named name f ds)
All-change_named P name f [] h k = tt
All-change_named P name f (d ∷ ds) h (k, ks) = elim (Bool-cases (is_active name d)) [
  | inl here ↦ rw here (h d k, ks)
  | inr other ↦ rw other (k, All-change_named P name f ds h ks)
]

pub All-unit : {A : Type 0} (xs : List A) → All (λ _. Unit {0}) xs
All-unit [] = tt
All-unit (x ∷ xs) = (tt, All-unit xs)

-- One more row at the end of a table.
pub count_if-append-zero :
    {A : Type 0} (p : A → Bool) (xs : List A) (x : A)
    → count_if p xs ≡ 0
    → p x ≡ false
    → count_if p (xs ++ x ∷ []) ≡ 0
count_if-append-zero p xs x h other =
    let last = ap (λ b. (if b then 1 else 0) + 0) other in
    omega (arith, count_if-append p xs (x ∷ []), h, last)

pub count_if-append-le :
    {A : Type 0} (p : A → Bool) (xs : List A) (x : A)
    → count_if p xs ≤ 1
    → (p x ≡ true → count_if p xs ≡ 0)
    → count_if p (xs ++ x ∷ []) ≤ 1
count_if-append-le p xs x h free = elim (Bool-cases (p x)) [
  | inl here ↦
      let last = ap (λ b. (if b then 1 else 0) + 0) here in
      let none_before = free here in omega (arith, count_if-append p xs (x ∷ []), none_before, last)
  | inr other ↦
      let last = ap (λ b. (if b then 1 else 0) + 0) other in
      omega (arith, count_if-append p xs (x ∷ []), h, last)
]

pub All-map :
    {A : Type 0} (P Q : A → Type 0) (xs : List A) → ((x : A) → P x → Q x) → All P xs → All Q xs
All-map P Q [] h k = tt
All-map P Q (x ∷ xs) h (k, ks) = (h x k, All-map P Q xs h ks)
