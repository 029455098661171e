-- ===== src/Base/Effects.antt =====
-- Statements with effects: an action takes a state and gives a result, or an exception, and the
-- state that it leaves. What was done before an exception stays done.
use mathlib.Core.Path.{◌≡◌, refl}
use mathlib.Core.Logic.{◌⊎◌, inl, inr}
use netbuddy.Base.Strings.{Text}

-- The exception's class, and `str(exc)`.
pub record Exception : Type 0 where
  pub type_name : Text
  pub message : Text

pub data Result {ℓ} (A : Type ℓ) : Type ℓ where
  ok : A → Result A
  raised : Exception → Result A

abbrev pub Action {ℓ} : Type ℓ → Type ℓ → Type ℓ
Action S A = S → Result A × S

module _ {ℓ} {S A : Type ℓ} where
  abbrev pub pure : A → Action S A
  pure a s = (ok a, s)

  abbrev pub throw : Exception → Action S A
  throw e s = (raised e, s)

module _ {ℓ} {S A B : Type ℓ} where
  abbrev pub and_then : Result A → (A → Action S B) → Action S B
  and_then (ok a) f s = f a s
  and_then (raised e) f s = (raised e, s)

  infixl 5 ◌>>=◌ ◌>>◌
  abbrev pub ◌>>=◌ : Action S A → (A → Action S B) → Action S B
  ◌>>=◌ m f s = let (r, s') = m s in and_then r f s'

  abbrev pub ◌>>◌ : Action S A → Action S B → Action S B
  m >> n = m >>= λ _. n

pub Result-cases {ℓ} :
    {A : Type ℓ} (r : Result A) → ((e : Exception) × (r ≡ raised e)) ⊎ ((a : A) × (r ≡ ok a))
Result-cases (ok a) = inr (a, refl)
Result-cases (raised e) = inl (e, refl)

-- Inversion of a successful sequence: its first part succeeded, and the rest goes on from there.
pub and_then-eq-ok {ℓ} :
    {S A B : Type ℓ} (r : Result A) (f : A → Action S B) (s : S) {b : B}
    → (and_then r f s).0 ≡ ok b
    → (a : A) × (r ≡ ok a) × ((f a s).0 ≡ ok b)
and_then-eq-ok (ok a) f s h = (a, refl, h)
and_then-eq-ok (raised e) f s h = absurd (cc)

pub ok_injective {ℓ} : {A : Type ℓ} {a b : A} → ok a ≡ ok b → a ≡ b
ok_injective h = cc

-- A computation with exceptions and no state, and the inversion of a successful one.
abbrev pub then_ok {ℓ κ} : {A : Type ℓ} {B : Type κ} → Result A → (A → Result B) → Result B
then_ok (ok a) f = f a
then_ok (raised e) f = raised e

pub then_ok-eq-ok {ℓ κ} :
    {A : Type ℓ} {B : Type κ} (r : Result A) (f : A → Result B) {b : B}
    → then_ok r f ≡ ok b
    → (a : A) × (r ≡ ok a) × (f a ≡ ok b)
then_ok-eq-ok (ok a) f h = (a, refl, h)
then_ok-eq-ok (raised e) f h = absurd (cc)

and_then-ran {ℓ} :
    {S A B : Type ℓ} (r : Result A) (f : A → Action S B) (s : S) {b : B}
    → (and_then r f s).0 ≡ ok b
    → (a : A) × (r ≡ ok a) × ((f a s).0 ≡ ok b) × ((and_then r f s).1 ≡ (f a s).1)
and_then-ran (ok a) f s h = (a, refl, h, refl)
and_then-ran (raised e) f s h = absurd (cc)

-- What a successful sequence did: its first part, and then the rest, in the state that it left.
pub ran {ℓ} :
    {S A B : Type ℓ} (m : Action S A) (f : A → Action S B) (s : S) {b : B}
    → ((m >>= f) s).0 ≡ ok b
    → (a : A) × ((m s).0 ≡ ok a) × ((f a (m s).1).0 ≡ ok b) × (((m >>= f) s).1 ≡ (f a (m s).1).1)
ran m f s h = and_then-ran (m s).0 f (m s).1 h
