-- ===== src/Adapters/Scalars.antt =====
-- What a pipeline of converters can give.
use netbuddy.Base.{
  ℕ, Text, text, lower, List, [], ◌∷◌, Option, none, some, nat_eq, list_eq, ◌==◌, Bool-cases,
  Option-cases, inl, inr, ok, raised, then_ok-eq-ok, ok_injective, All, ◌≡◌, ◌⊎◌, ◌≢◌, refl, subst,
}
use mathlib.Core.Option.{some-injective}
use netbuddy.Base.Dict.{lookup}
use netbuddy.Adapters.Values.{Value, null, boolean, number, string, items, of_text, of_number}
use netbuddy.Adapters.Converters.{
  Arguments, lookup_arguments, enum_arguments, Spec, named, with_arguments, simple, first,
  strip_or_none, make_lookup, look_up, make_enum_value, enum_of, enums, call_factory,
  found_converter, build_converter, apply_pipeline, value_error, type_error, mac_or_none,
  mac_or_raw, placeholder_or_none, first_word, int_or_none, ip_or_none, kbit_to_mbps, leading_int,
  to_lower,
}

-- No list.
abbrev pub IsScalar : Value → Type 0
IsScalar (items xs) = ⊥
IsScalar _ = Unit

-- A table without lists.
abbrev pub HasScalars : Arguments → Type 0
HasScalars (lookup_arguments table default) = All (λ p. IsScalar p.1) table × IsScalar default
HasScalars (enum_arguments values_of default) = Unit

abbrev pub IsScalarSpec : Spec → Type 0
IsScalarSpec (named name) = Unit
IsScalarSpec (with_arguments args) = All (λ p. HasScalars p.1) args

of_text-IsScalar : (o : Option Text) → IsScalar (of_text o)
of_text-IsScalar none = tt
of_text-IsScalar (some s) = tt

of_number-IsScalar : (o : Option ℕ) → IsScalar (of_number o)
of_number-IsScalar none = tt
of_number-IsScalar (some n) = tt

abbrev GivesScalars : (Value → Value) → Type 0
GivesScalars f = (v : Value) → IsScalar (f v)

lookup-All :
    {A : Type 0} (P : A → Type 0) (k : Text) (a : A) (d : List (Text × A))
    → All (λ p. P p.1) d
    → lookup k d ≡ some a
    → P a
lookup-All P k a [] h found = absurd (cc)
lookup-All P k a ((j, b) ∷ d) (p, h) found = elim (Bool-cases (j == k)) [
  | inl same ↦ let e : some b ≡ some a = rw same at found in subst P (some-injective b a e) p
  | inr other ↦ let rest : lookup k d ≡ some a = rw other at found in lookup-All P k a d h rest
]

module _ (show : List Text → Text) where
  first-IsScalar : GivesScalars (first show)
  unfolding first
  first-IsScalar (items []) = tt
  first-IsScalar (items (x ∷ xs)) = of_text-IsScalar (strip_or_none show (string x))
  first-IsScalar null = of_text-IsScalar (strip_or_none show null)
  first-IsScalar (boolean b) = of_text-IsScalar (strip_or_none show (boolean b))
  first-IsScalar (number n) = of_text-IsScalar (strip_or_none show (number n))
  first-IsScalar (string s) = of_text-IsScalar (strip_or_none show (string s))

  simple-All : All (λ p. GivesScalars p.1) (simple show)
  simple-All = (
    (λ v. of_text-IsScalar (mac_or_none show v)),
    (
      (λ v. of_text-IsScalar (mac_or_raw show v)),
      (
        (λ v. of_text-IsScalar (placeholder_or_none show v)),
        (
          (λ v. of_text-IsScalar (strip_or_none show v)),
          (
            first-IsScalar,
            (
              (λ v. of_text-IsScalar (first_word show v)),
              (
                (λ v. of_number-IsScalar (int_or_none show v)),
                (
                  (λ v. of_text-IsScalar (ip_or_none show v)),
                  (
                    (λ v. of_number-IsScalar (kbit_to_mbps show v)),
                    (
                      (λ v. of_number-IsScalar (leading_int show v)),
                      ((λ v. of_text-IsScalar (to_lower show v)), tt),
                    ),
                  ),
                ),
              ),
            ),
          ),
        ),
      ),
    ),
  )

  look_up-IsScalar :
      (table : List (Text × Value)) (default : Value) (o : Option Text)
      → All (λ p. IsScalar p.1) table
      → IsScalar default
      → IsScalar (look_up show table default o)
  look_up-IsScalar table default none h d = d
  look_up-IsScalar table default (some s) h d = elim (Option-cases (lookup (lower s) table)) [
    | inl missing ↦ rw missing d
    | inr (v, found) ↦ rw found (lookup-All IsScalar (lower s) v table h found)
  ]

  found-IsScalar :
      (o : Option (Value → Value)) (f : Value → Value)
      → ((g : Value → Value) → o ≡ some g → GivesScalars g)
      → found_converter show o ≡ ok f
      → GivesScalars f
  found-IsScalar none f h e = absurd (cc)
  found-IsScalar (some g) f h e = subst GivesScalars (ok_injective e) (h g refl)

  enum-IsScalar :
      (values_of default : Text) (f : Value → Value)
      → make_enum_value show values_of default ≡ ok f
      → GivesScalars f
  unfolding make_enum_value
  enum-IsScalar values_of default f e = elim (Option-cases (lookup values_of enums)) [
    | inl missing ↦ let no : raised value_error ≡ ok f = rw missing at e in absurd (cc)
    | inr (valid, found) ↦
        let made : ok (λ v. string (enum_of valid default (strip_or_none show v))) ≡ ok f =
          rw found at e in
        subst GivesScalars (ok_injective made) (λ v. tt)
  ]

  factory-IsScalar :
      (name : Text) (args : Arguments) (f : Value → Value)
      → HasScalars args
      → call_factory show name args ≡ ok f
      → GivesScalars f
  unfolding call_factory make_lookup
  factory-IsScalar name (lookup_arguments table default) f (h, d) e =
      elim (Bool-cases (name == text "lookup")) [
        | inl is_lookup ↦
            let made : ok (make_lookup show table default) ≡ ok f = rw is_lookup at e in
            subst GivesScalars (ok_injective made)
              (λ v. look_up-IsScalar table default (strip_or_none show v) h d)
        | inr other ↦ elim (Bool-cases (name == text "enum_value")) [
          | inl is_enum ↦
              let no : raised type_error ≡ ok f = rw (other, is_enum) at e in absurd (cc)
          | inr unknown ↦
              let no : raised value_error ≡ ok f = rw (other, unknown) at e in absurd (cc)
        ]
      ]
  factory-IsScalar name (enum_arguments values_of default) f h e =
      elim (Bool-cases (name == text "enum_value")) [
        | inl is_enum ↦ enum-IsScalar values_of default f (rw is_enum at e)
        | inr other ↦ elim (Bool-cases (name == text "lookup")) [
          | inl is_lookup ↦
              let no : raised type_error ≡ ok f = rw (other, is_lookup) at e in absurd (cc)
          | inr unknown ↦
              let no : raised value_error ≡ ok f = rw (other, unknown) at e in absurd (cc)
        ]
      ]

  build_converter-IsScalar :
      (spec : Spec) (f : Value → Value)
      → IsScalarSpec spec
      → build_converter show spec ≡ ok f
      → GivesScalars f
  unfolding build_converter
  build_converter-IsScalar (named name) f h e =
      found-IsScalar (lookup name (simple show)) f
        (λ g. lookup-All GivesScalars name g (simple show) simple-All) e
  build_converter-IsScalar (with_arguments []) f h e = absurd (cc)
  build_converter-IsScalar (with_arguments ((name, args) ∷ [])) f (h, k) e =
      factory-IsScalar name args f h e
  build_converter-IsScalar (with_arguments (a ∷ b ∷ more)) f h e = absurd (cc)

  -- A pipeline of converters whose tables have no lists gives no list: to a value that is none, or
  -- through at least one converter.
  pub apply_pipeline-IsScalar :
      (specs : List Spec) (v w : Value)
      → All IsScalarSpec specs
      → IsScalar v ⊎ (specs ≢ [])
      → apply_pipeline show v specs ≡ ok w
      → IsScalar w
  unfolding apply_pipeline
  apply_pipeline-IsScalar [] v w h (inl scalar) e = subst IsScalar (ok_injective e) scalar
  apply_pipeline-IsScalar [] v w h (inr some_spec) e = absurd (some_spec refl)
  apply_pipeline-IsScalar (spec ∷ specs) v w (h, hs) start e =
      let (f, built, rest) =
        then_ok-eq-ok (build_converter show spec) (λ f. apply_pipeline show (f v) specs) e in
      apply_pipeline-IsScalar specs (f v) w hs (inl (build_converter-IsScalar spec f h built v))
        rest
