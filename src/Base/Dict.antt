-- ===== src/Base/Dict.antt =====
-- Python's dictionaries as association lists in insertion order: writing an existing key keeps
-- its place, `setdefault` writes only a missing key.
use mathlib.Core.Path.{◌≡◌, refl, ap, ◌∙◌}
use mathlib.Core.Logic.{inl, inr}
use mathlib.Core.Option.{Option, none, some}
use mathlib.Core.List.{List, [], ◌∷◌, ◌++◌, map}
use native.Mathlib.Omega.{arith}
use netbuddy.Base.Tests.{if◌then◌else◌, or_else, Bool-cases}
use netbuddy.Base.Lists.{All}
use netbuddy.Base.Keys.{Eq, ◌==◌, ==_refl}

module _ {ℓ κ} {K : Type ℓ} {V : Type κ} ⦃e : Eq K⦄ where
  abbrev pub lookup : K → List (K × V) → Option V
  lookup k [] = none
  lookup k ((j, v) ∷ d) = if j == k then some v else lookup k d

  abbrev pub insert : K → V → List (K × V) → List (K × V)
  insert k v [] = (k, v) ∷ []
  insert k v ((j, w) ∷ d) = if j == k then (j, v) ∷ d else (j, w) ∷ insert k v d

  abbrev pub setdefault : K → V → List (K × V) → List (K × V)
  setdefault k v [] = (k, v) ∷ []
  setdefault k v ((j, w) ∷ d) = if j == k then (j, w) ∷ d else (j, w) ∷ setdefault k v d

  abbrev pub values : List (K × V) → List V
  values d = map (λ p. p.1) d

  pub lookup-insert :
      (k j : K) (v : V) (d : List (K × V))
      → lookup j (insert k v d) ≡ (if k == j then some v else lookup j d)
  lookup-insert k j v [] = refl
  lookup-insert k j v ((i, w) ∷ d) =
      ground (arith, e.is_same_iff k j, e.is_same_iff i k, e.is_same_iff i j, lookup-insert k j v d)

  pub lookup-insert_self : (k : K) (v : V) (d : List (K × V)) → lookup k (insert k v d) ≡ some v
  lookup-insert_self k v d =
      lookup-insert k k v d ∙ ap (λ b. if b then some v else lookup k d) (==_refl k)

  -- No key stands twice, as in every dictionary.
  abbrev pub HasDistinctKeys : List (K × V) → Type κ
  HasDistinctKeys [] = Unit
  HasDistinctKeys ((k, v) ∷ d) = (lookup k d ≡ none) × HasDistinctKeys d

  pub insert-HasDistinctKeys :
      (k : K) (v : V) (d : List (K × V)) → HasDistinctKeys d → HasDistinctKeys (insert k v d)
  insert-HasDistinctKeys k v [] h = (refl, tt)
  insert-HasDistinctKeys k v ((j, w) ∷ d) (fresh, h) = ground (
    arith,
    lookup-insert k j v d,
    e.is_same_iff j k,
    e.is_same_iff k j,
    insert-HasDistinctKeys k v d h,
  )

  pub lookup-append :
      (k : K) (d d' : List (K × V)) → lookup k (d ++ d') ≡ or_else (lookup k d) (lookup k d')
  lookup-append k [] d' = refl
  lookup-append k ((j, v) ∷ d) d' = ground (arith, lookup-append k d d')

  pub lookup-setdefault :
      (k j : K) (v : V) (d : List (K × V))
      → lookup j (setdefault k v d) ≡ or_else (lookup j d) (if k == j then some v else none)
  lookup-setdefault k j v [] = refl
  lookup-setdefault k j v ((i, w) ∷ d) =
      ground
        (arith, e.is_same_iff k j, e.is_same_iff i k, e.is_same_iff i j, lookup-setdefault k j v d)

  pub setdefault-HasDistinctKeys :
      (k : K) (v : V) (d : List (K × V)) → HasDistinctKeys d → HasDistinctKeys (setdefault k v d)
  setdefault-HasDistinctKeys k v [] h = (refl, tt)
  setdefault-HasDistinctKeys k v ((j, w) ∷ d) (fresh, h) = ground (
    arith,
    lookup-setdefault k j v d,
    e.is_same_iff j k,
    e.is_same_iff k j,
    setdefault-HasDistinctKeys k v d h,
  )

module _ {ℓ κ μ} {K : Type ℓ} {V : Type κ} ⦃e : Eq K⦄ (P : K → Type μ) where
  -- What holds of the keys holds of them after a write under such a key.
  pub insert-All :
      (k : K) (v : V) (d : List (K × V))
      → P k
      → All (λ p. P p.0) d
      → All (λ p. P p.0) (insert k v d)
  insert-All k v [] p h = (p, tt)
  insert-All k v ((j, w) ∷ d) p (q, h) = elim (Bool-cases (j == k)) [
    | inl same ↦ rw same (q, h)
    | inr other ↦ rw other (q, insert-All k v d p h)
  ]

module _ {ℓ κ μ} {K : Type ℓ} {V : Type κ} ⦃e : Eq K⦄ (P : K → V → Type μ) where
  -- What holds of all that a dictionary gives holds of its items.
  pub items-All :
      (d : List (K × V))
      → HasDistinctKeys d
      → ((k : K) (v : V) → lookup k d ≡ some v → P k v)
      → All (λ p. P p.0 p.1) d
  items-All [] h f = tt
  items-All ((k, v) ∷ d) (fresh, h) f =
      (f k v (rw (==_refl k) refl), items-All d h (λ j w found. f j w (later j w found)))
    where
      later : (j : K) (w : V) → lookup j d ≡ some w → lookup j ((k, v) ∷ d) ≡ some w
      later j w found = ground (arith, found, fresh, e.is_same_iff k j)
