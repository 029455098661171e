-- ===== src/Adapters/Declarative.antt =====
-- The adapter that interprets a profile (backend/src/netbuddy/adapters/declarative.py and parsers.py).
-- ntc-templates and TextFSM are parameters: the parsing of an output for a platform, and with a
-- template. A transport sends a command, in a state of its own.
use netbuddy.Base.{
  Text, text, starts_with, drop, length, Bool, true, false, all, keep, List, [], ◌∷◌, Option, none,
  some, is_some, list_eq, nat_eq, ◌==◌, if◌then◌else◌, Action, Result, ok, raised, Exception, pure,
  throw, ◌>>=◌, then_ok,
}
use netbuddy.Base.Dict.{lookup, insert}
use netbuddy.Discovery.Rows.{Capability, read_system_info, read_config, configure_port_vlan}
use netbuddy.Adapters.Values.{Value, null, string}
use netbuddy.Adapters.Mapping.{Row, FieldSpec, Dto, build_dto}

pub record SourceSpec : Type 0 where
  pub command : Text
  pub parser : Text

pub record CapabilitySpec : Type 0 where
  pub sources : List SourceSpec
  pub drop_when_empty : List Text
  pub fields : List (Text × FieldSpec)

-- What the adapter reads of a vendor profile.
pub record VendorProfile : Type 0 where
  pub adapter_id : Text
  pub ntc_platform : Option Text
  pub backup_command : Option Text
  pub has_port_vlan_control : Bool
  pub capabilities : Capability → Option CapabilitySpec

pub record Parsers : Type 0 where
  pub parse_output : Text → Text → Text → Result (List Row)
  pub parse_template : Text → Text → Result (List Row)

abbrev pub value_error : Exception
value_error = record { type_name = text "ValueError"; message = [] }

abbrev pub not_supported : Exception
not_supported = record { type_name = text "CapabilityNotSupportedError"; message = [] }

abbrev parse_ntc : Parsers → Option Text → Text → Text → Result (List Row)
parse_ntc parsers none command d = raised value_error
parse_ntc parsers (some platform) command d = parsers.parse_output platform command d

abbrev textfsm_prefix : Text
textfsm_prefix = text "textfsm:"

unfoldable pub parse : Parsers → Text → Option Text → Text → Text → Result (List Row)
parse parsers parser platform command d =
    if parser == text "ntc"
    then parse_ntc parsers platform command d
    else (if starts_with textfsm_prefix parser
        then parsers.parse_template (drop (length textfsm_prefix) parser) d
        else raised value_error)

abbrev is_command : Option Text → Bool
is_command none = false
is_command (some []) = false
is_command (some (c ∷ s)) = true

module _ (profile : VendorProfile) where
  -- Whether `capabilities()` has a capability.
  unfoldable pub can : Capability → Bool
  can read_config =
      if is_some (profile.capabilities read_config) then true else is_command profile.backup_command
  can configure_port_vlan =
      if is_some (profile.capabilities configure_port_vlan)
      then true
      else profile.has_port_vlan_control
  can c = is_some (profile.capabilities c)

-- Its value may be overwritten.
abbrev pub is_blank : Option Value → Bool
is_blank none = true
is_blank (some null) = true
is_blank (some (string [])) = true
is_blank (some _) = false

unfoldable pub merge_row : Row → Row → Row
merge_row [] merged = merged
merge_row ((key, v) ∷ row) merged =
    merge_row row (if is_blank (lookup key merged) then insert key v merged else merged)

abbrev pub first_row : List Row → Row
first_row [] = []
first_row (r ∷ rows) = r

unfoldable pub drop_empty : {T : Type 0} → Dto T → List Text → List T → List T
drop_empty dto [] xs = xs
drop_empty dto (f ∷ fields) xs = keep (λ x. all (λ g. dto.is_set g x) (f ∷ fields)) xs

abbrev pub build_all : {T : Type 0} → (Row → Result T) → List Row → Result (List T)
build_all build [] = ok []
build_all build (r ∷ rows) =
    then_ok (build r) (λ x. then_ok (build_all build rows) (λ xs. ok (x ∷ xs)))

module _ {S : Type 0} (show : List Text → Text) (parsers : Parsers) (profile : VendorProfile)
    (send_command : Text → Action S Text) where
  abbrev get_backup : Option Text → Action S Text
  get_backup (some (c ∷ s)) = send_command (c ∷ s)
  get_backup _ = throw not_supported

  unfoldable pub get_config : Action S Text
  get_config = get_backup profile.backup_command

  abbrev pub lift : {A : Type 0} → Result A → Action S A
  lift (ok a) = pure a
  lift (raised e) = throw e

  unfoldable pub parse_source : SourceSpec → Action S (List Row)
  unfolding parse
  parse_source source = send_command source.command >>= λ raw.
      lift (parse parsers source.parser profile.ntc_platform source.command raw)

  unfoldable pub merged_from : List SourceSpec → Row → Action S Row
  unfolding parse_source merge_row
  merged_from [] merged = pure merged
  merged_from (source ∷ sources) merged =
      parse_source source >>= λ rows. merged_from sources (merge_row (first_row rows) merged)

  abbrev pub only_source : List SourceSpec → Action S (List Row)
  only_source (source ∷ []) = parse_source source
  only_source _ = throw value_error

  abbrev pub list_from : {T : Type 0} → Dto T → CapabilitySpec → List SourceSpec → Action S (List T)
  list_from dto spec sources = only_source sources >>= λ rows. lift (
      then_ok (build_all (build_dto show dto spec.fields) rows)
        (λ xs. ok (drop_empty dto spec.drop_when_empty xs)))

  abbrev pub list_with : {T : Type 0} → Dto T → Option CapabilitySpec → Action S (List T)
  list_with dto none = throw not_supported
  list_with dto (some spec) = list_from dto spec spec.sources

  -- `get_interfaces`, `get_lldp_neighbors`, `get_mac_table` and `get_arp`, each with its capability and
  -- its class.
  unfoldable pub get_list : {T : Type 0} → Capability → Dto T → Action S (List T)
  unfolding parse_source build_dto drop_empty
  get_list c dto = list_with dto (profile.capabilities c)

  abbrev pub info_with : {T : Type 0} → Dto T → Option CapabilitySpec → Action S T
  info_with dto none = throw not_supported
  info_with dto (some spec) =
      merged_from spec.sources [] >>= λ row. lift (build_dto show dto spec.fields row)

  unfoldable pub get_system_info : {T : Type 0} → Dto T → Action S T
  unfolding merged_from build_dto
  get_system_info dto = info_with dto (profile.capabilities read_system_info)

  -- Of no declarative profile.
  unfoldable pub get_vpn_tunnels : {T : Type 0} → Action S T
  get_vpn_tunnels = throw not_supported
