-- ===== src/Adapters/Merged.antt =====
-- What the rows of several sources are merged into.
use netbuddy.Base.{
  Text, true, false, List, [], ◌∷◌, map, Option, none, some, or_else, nat_eq, list_eq, ◌==◌,
  list_beq_iff, Bool-cases, inl, inr, if◌then◌else◌, Action, Result, ok, raised, All, ◌≡◌, refl,
  sym, ap, subst, ◌∙◌,
}
use netbuddy.Base.Dict.{lookup, insert, lookup-insert, HasDistinctKeys}
use netbuddy.Discovery.Rows.{read_system_info}
use netbuddy.Adapters.Values.{Value}
use netbuddy.Adapters.Mapping.{Row, Dto, build_dto}
use netbuddy.Adapters.Declarative.{
  SourceSpec, CapabilitySpec, VendorProfile, Parsers, is_blank, merge_row, first_row, parse_source,
  merged_from, lift, get_system_info,
}

-- A value that is there goes before one that is blank; of blank ones, the last counts.
abbrev pub keep_or_take : Option Value → Option Value → Option Value
keep_or_take before new = if is_blank before then or_else new before else before

-- The value of a key in rows that come one after the other.
abbrev pub value_in : Text → List Row → Option Value → Option Value
value_in key [] before = before
value_in key (row ∷ rows) before = value_in key rows (keep_or_take before (lookup key row))

keep_or_take-none : (o : Option Value) → keep_or_take o none ≡ o
keep_or_take-none o = elim (Bool-cases (is_blank o)) [
  | inl blank ↦ rw blank refl
  | inr present ↦ rw present refl
]

-- One key of the row, into what is merged so far.
abbrev take_key : Text → Value → Row → Row
take_key j v merged = if is_blank (lookup j merged) then insert j v merged else merged

lookup-take_key :
    (key j : Text) (v : Value) (merged : Row)
    → lookup key (take_key j v merged)
      ≡ (if j == key then keep_or_take (lookup key merged) (some v) else lookup key merged)
lookup-take_key key j v merged = elim (Bool-cases (j == key)) [
  | inr other ↦ elim (Bool-cases (is_blank (lookup j merged))) [
    | inl blank ↦ rw (blank, other) (lookup-insert j key v merged ∙ rw other refl)
    | inr present ↦ rw (present, other) refl
  ]
  | inl same ↦
      let e = (list_beq_iff j key).0 same in
      elim (Bool-cases (is_blank (lookup j merged))) [
        | inl blank ↦
            let blank' : is_blank (lookup key merged) ≡ true =
              subst (λ k. is_blank (lookup k merged) ≡ true) e blank in
            rw (blank, same, blank') (lookup-insert j key v merged ∙ rw same refl)
        | inr present ↦
            let present' : is_blank (lookup key merged) ≡ false =
              subst (λ k. is_blank (lookup k merged) ≡ false) e present in
            rw (present, same, present') refl
      ]
]

lookup-merge_row :
    (key : Text) (row merged : Row)
    → HasDistinctKeys row
    → lookup key (merge_row row merged) ≡ keep_or_take (lookup key merged) (lookup key row)
unfolding merge_row
lookup-merge_row key [] merged h = sym (keep_or_take-none (lookup key merged))
lookup-merge_row key ((j, v) ∷ row) merged (fresh, h) =
    lookup-merge_row key row (take_key j v merged) h
    ∙ ap (λ o. keep_or_take o (lookup key row)) (lookup-take_key key j v merged)
    ∙ elim (Bool-cases (j == key)) [
      | inr other ↦ rw other refl
      | inl same ↦
          let absent : lookup key row ≡ none =
            subst (λ k. lookup k row ≡ none) ((list_beq_iff j key).0 same) fresh in
          rw (same, absent) (keep_or_take-none (keep_or_take (lookup key merged) (some v)))
    ]

module _ {S : Type 0} (show : List Text → Text) (parsers : Parsers) (profile : VendorProfile)
    (send_command : Text → Action S Text) (rows_of : SourceSpec → List Row) where
  -- A source whose parsed rows are these, whatever was sent before; no row has a key twice.
  abbrev pub Answers : SourceSpec → Type 0
  Answers source =
      ((s : S) → (parse_source show parsers profile send_command source s).0 ≡ ok (rows_of source))
      × HasDistinctKeys (first_row (rows_of source))

  merged_from-value_in :
      (sources : List SourceSpec) (merged : Row) (s : S)
      → All Answers sources
      → (row : Row) × ((merged_from show parsers profile send_command sources merged s).0 ≡ ok row)
        × ((key : Text)
            → lookup key row
              ≡ value_in key
                  (map (λ source. first_row (rows_of source)) sources)
                  (lookup key merged))
  unfolding merged_from
  merged_from-value_in [] merged s h = (merged, refl, λ key. refl)
  merged_from-value_in (source ∷ sources) merged s ((answer, once), h) =
      let first = first_row (rows_of source) in
      let (row, found, values) =
        merged_from-value_in sources (merge_row first merged)
          (parse_source show parsers profile send_command source s).1 h in
      (
        row,
        rw (answer s) found,
        λ key.
            values key
            ∙ ap (value_in key (map (λ source'. first_row (rows_of source')) sources))
                (lookup-merge_row key first merged once),
      )

  lift-result :
      {A : Type 0} (r : Result A) (s : S) → (lift show parsers profile send_command r s).0 ≡ r
  lift-result (ok a) s = refl
  lift-result (raised e) s = refl

  -- Where each source of the system information answers with rows, no row having a key twice, the answer
  -- is built from one row, in which a key has the first value that the sources' first rows have for it
  -- and that is neither missing nor empty, and otherwise the last one.
  pub get_system_info-merged :
      {T : Type 0} (dto : Dto T) (spec : CapabilitySpec) (s : S)
      → profile.capabilities read_system_info ≡ some spec
      → All Answers spec.sources
      → (row : Row) × ((get_system_info show parsers profile send_command dto s).0
          ≡ build_dto show dto spec.fields row)
        × ((key : Text)
            → lookup key row
              ≡ value_in key (map (λ source. first_row (rows_of source)) spec.sources) none)
  unfolding get_system_info
  get_system_info-merged dto spec s known h =
      let (row, found, values) = merged_from-value_in spec.sources [] s h in
      let after = (merged_from show parsers profile send_command spec.sources [] s).1 in
      (row, rw (known, found) (lift-result (build_dto show dto spec.fields row) after), values)
