-- ===== src/Adapters/Reads.antt =====
-- What the reads of lists send to a device, and what they give.
use netbuddy.Base.{
  Text, true, all, keep, List, [], ◌∷◌, Option, none, some, Bool-cases, inl, inr, Action, Result,
  ok, raised, and_then, then_ok, then_ok-eq-ok, ok_injective, All, ◌≡◌, ◌≢◌, ap, length, refl, sym,
  subst, ◌∙◌, arith,
}
use netbuddy.Discovery.Rows.{Capability}
use netbuddy.Adapters.Mapping.{Row, Dto, build_dto}
use netbuddy.Adapters.Declarative.{
  SourceSpec, CapabilitySpec, VendorProfile, Parsers, value_error, not_supported, drop_empty,
  build_all, lift, parse_source, list_from, list_with, get_list, parse,
}

module _ {T : Type 0} (dto : Dto T) where
  -- Every one of these fields is set.
  abbrev pub IsFilled : List Text → T → Type 0
  IsFilled fields x = All (λ f. dto.is_set f x ≡ true) fields

  all-IsFilled :
      (fields : List Text) (x : T) → all (λ f. dto.is_set f x) fields ≡ true → IsFilled fields x
  all-IsFilled [] x h = tt
  all-IsFilled (f ∷ fields) x h = (ground (arith, h), all-IsFilled fields x (ground (arith, h)))

  keep-IsFilled :
      (fields : List Text) (xs : List T)
      → All (IsFilled fields) (keep (λ x. all (λ f. dto.is_set f x) fields) xs)
  keep-IsFilled fields [] = tt
  keep-IsFilled fields (x ∷ xs) = elim (Bool-cases (all (λ f. dto.is_set f x) fields)) [
    | inl filled ↦ rw filled (all-IsFilled fields x filled, keep-IsFilled fields xs)
    | inr empty ↦ rw empty (keep-IsFilled fields xs)
  ]

  nothing-IsFilled : (xs : List T) → All (IsFilled []) xs
  nothing-IsFilled [] = tt
  nothing-IsFilled (x ∷ xs) = (tt, nothing-IsFilled xs)

  drop_empty-IsFilled :
      (fields : List Text) (xs : List T) → All (IsFilled fields) (drop_empty dto fields xs)
  unfolding drop_empty
  drop_empty-IsFilled [] xs = nothing-IsFilled xs
  drop_empty-IsFilled (f ∷ fields) xs = keep-IsFilled (f ∷ fields) xs

  keep_all : (xs : List T) → keep (λ x. true) xs ≡ xs
  keep_all [] = refl
  keep_all (x ∷ xs) = ap (λ l. x ∷ l) (keep_all xs)

  drop_empty_lem :
      (fields : List Text) (xs : List T)
      → drop_empty dto fields xs ≡ keep (λ x. all (λ f. dto.is_set f x) fields) xs
  unfolding drop_empty
  drop_empty_lem [] xs = sym (keep_all xs)
  drop_empty_lem (f ∷ fields) xs = refl

module _ {S : Type 0} (show : List Text → Text) (parsers : Parsers) (profile : VendorProfile)
    (send_command : Text → Action S Text) {T : Type 0} (dto : Dto T) where
  -- What a read does on each of its paths: a capability that the profile has not, or has with another
  -- number of sources than one, is refused and nothing is sent; otherwise the command of its source is
  -- all that is sent, a list that it gives has no item without one of the required fields, and where
  -- the device answers and the answer is parsed and validated, the list is that of all the items
  -- with these fields.
  pub data IsGuarded (o : Option CapabilitySpec) (r : Result (List T)) (before after : S)
      : Type 0 where
    missing : o ≡ none → r ≡ raised not_supported → before ≡ after → IsGuarded o r before after
    ambiguous :
        (spec : CapabilitySpec)
        → o ≡ some spec
        → length spec.sources ≢ 1
        → r ≡ raised value_error
        → before ≡ after
        → IsGuarded o r before after
    answered :
        (spec : CapabilitySpec) (source : SourceSpec)
        → o ≡ some spec
        → spec.sources ≡ source ∷ []
        → after ≡ (send_command source.command before).1
        → ((xs : List T) → r ≡ ok xs → All (IsFilled dto spec.drop_when_empty) xs)
        → ((raw : Text) (rows : List Row) (xs : List T)
            → (send_command source.command before).0 ≡ ok raw
            → parse parsers source.parser profile.ntc_platform source.command raw ≡ ok rows
            → build_all (build_dto show dto spec.fields) rows ≡ ok xs
            → r ≡ ok (keep (λ x. all (λ f. dto.is_set f x) spec.drop_when_empty) xs))
        → IsGuarded o r before after

  lift-state :
      {A : Type 0} (r : Result A) (s : S) → (lift show parsers profile send_command r s).1 ≡ s
  lift-state (ok a) s = refl
  lift-state (raised e) s = refl

  then-lift-state :
      {A B : Type 0} (r : Result A) (f : A → Result B) (s : S)
      → (and_then r (λ a. lift show parsers profile send_command (f a)) s).1 ≡ s
  then-lift-state (ok a) f s = lift-state (f a) s
  then-lift-state (raised e) f s = refl

  then-lift-result :
      {A B : Type 0} (r : Result A) (f : A → Result B) (s : S)
      → (and_then r (λ a. lift show parsers profile send_command (f a)) s).0 ≡ then_ok r f
  then-lift-result (ok a) f s = result (f a)
    where
      result : {B : Type 0} (r : Result B) → (lift show parsers profile send_command r s).0 ≡ r
      result (ok b) = refl
      result (raised e) = refl
  then-lift-result (raised e) f s = refl

  parse_source-state :
      (source : SourceSpec) (s : S)
      → (parse_source show parsers profile send_command source s).1
        ≡ (send_command source.command s).1
  unfolding parse_source
  parse_source-state source s =
      then-lift-state (send_command source.command s).0
        (λ raw. parse parsers source.parser profile.ntc_platform source.command raw)
        (send_command source.command s).1

  parse_source-rows :
      (source : SourceSpec) (s : S) (raw : Text) (rows : List Row)
      → (send_command source.command s).0 ≡ ok raw
      → parse parsers source.parser profile.ntc_platform source.command raw ≡ ok rows
      → (parse_source show parsers profile send_command source s).0 ≡ ok rows
  unfolding parse_source
  parse_source-rows source s raw rows sent parsed =
      then-lift-result (send_command source.command s).0
        (λ raw. parse parsers source.parser profile.ntc_platform source.command raw)
        (send_command source.command s).1
      ∙ ap
          (λ r.
            then_ok r (λ raw. parse parsers source.parser profile.ntc_platform source.command raw))
          sent
      ∙ parsed

  listed : CapabilitySpec → List Row → Result (List T)
  listed spec rows =
      then_ok (build_all (build_dto show dto spec.fields) rows)
        (λ xs. ok (drop_empty dto spec.drop_when_empty xs))

  listed-IsFilled :
      (spec : CapabilitySpec) (r : Result (List Row)) (xs : List T)
      → then_ok r (listed spec) ≡ ok xs
      → All (IsFilled dto spec.drop_when_empty) xs
  unfolding listed
  listed-IsFilled spec r xs h =
      let (rows, parsed, built) = then_ok-eq-ok r (listed spec) h in
      let (ys, made, kept) =
        then_ok-eq-ok (build_all (build_dto show dto spec.fields) rows)
          (λ ys. ok (drop_empty dto spec.drop_when_empty ys)) built in
      subst (All (IsFilled dto spec.drop_when_empty)) (ok_injective kept)
        (drop_empty-IsFilled dto spec.drop_when_empty ys)

  list_from-IsGuarded :
      (spec : CapabilitySpec) (sources : List SourceSpec) (s : S)
      → spec.sources ≡ sources
      → IsGuarded
          (some spec)
          (list_from show parsers profile send_command dto spec sources s).0
          s
          (list_from show parsers profile send_command dto spec sources s).1
  unfolding listed
  list_from-IsGuarded spec [] s e =
      ambiguous spec refl (λ h. omega (arith, ap length e, h)) refl refl
  list_from-IsGuarded spec (a ∷ b ∷ sources) s e =
      ambiguous spec refl (λ h. omega (arith, ap length e, h)) refl refl
  list_from-IsGuarded spec (source ∷ []) s e =
      let read = parse_source show parsers profile send_command source s in
      answered spec source refl e
        (then-lift-state read.0 (listed spec) read.1 ∙ parse_source-state source s)
        (λ xs h.
          listed-IsFilled spec read.0 xs (sym (then-lift-result read.0 (listed spec) read.1) ∙ h))
        (λ raw rows xs sent parsed built.
          then-lift-result read.0 (listed spec) read.1
          ∙ ap (λ r. then_ok r (listed spec)) (parse_source-rows source s raw rows sent parsed)
          ∙ ap (λ r. then_ok r (λ ys. ok (drop_empty dto spec.drop_when_empty ys))) built
          ∙ ap ok (drop_empty_lem dto spec.drop_when_empty xs))

  list_with-IsGuarded :
      (o : Option CapabilitySpec) (s : S)
      → IsGuarded o
          (list_with show parsers profile send_command dto o s).0
          s
          (list_with show parsers profile send_command dto o s).1
  list_with-IsGuarded none s = missing refl refl refl
  list_with-IsGuarded (some spec) s = list_from-IsGuarded spec spec.sources s refl

  -- A read of interfaces, of LLDP neighbours, of the table of MAC addresses or of the ARP table: where
  -- the profile has not its capability, or has it with another number of sources than one, it is refused
  -- with `CapabilityNotSupportedError` or `ValueError`, and nothing is sent; otherwise the command of
  -- its source is all that is sent, a list that it gives has no item without a required field, and where
  -- the device answers and its answer is parsed and validated, the list is given and is that of all the
  -- items that have these fields, in their order.
  pub get_list-IsGuarded :
      (c : Capability) (s : S)
      → IsGuarded
          (profile.capabilities c)
          (get_list show parsers profile send_command c dto s).0
          s
          (get_list show parsers profile send_command c dto s).1
  unfolding get_list
  get_list-IsGuarded c s = list_with-IsGuarded (profile.capabilities c) s
