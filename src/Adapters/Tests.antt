-- ===== src/Adapters/Tests.antt =====
-- A profile with two sources, and the theorems at it.
use netbuddy.Base.{
  Text, text, lower_char, true, false, List, [], ◌∷◌, map, Option, none, some, Action, ok, All,
  nat_eq, list_eq, ◌≡◌, inr, refl, ◌==◌, if◌then◌else◌,
}
use netbuddy.Base.Dict.{lookup}
use netbuddy.Discovery.Rows.{Capability, read_system_info, read_arp}
use netbuddy.Hosts.{normalize_mac}
use netbuddy.Adapters.Values.{string, items}
use netbuddy.Adapters.Converters.{
  Spec, first, named, with_arguments, enum_arguments, colons, mac_or_none, apply_pipeline,
  kbit_to_mbps, leading_int,
}
use netbuddy.Adapters.Macs.{mac_or_none-round_trip}
use netbuddy.Adapters.Scalars.{IsScalar, apply_pipeline-IsScalar}
use netbuddy.Adapters.Mapping.{Row, const, from, Dto, build_dto}
use netbuddy.Adapters.Declarative.{
  SourceSpec, CapabilitySpec, VendorProfile, Parsers, first_row, parse_source, get_list,
  get_system_info,
}
use netbuddy.Adapters.Merged.{value_in, Answers, get_system_info-merged}
use netbuddy.Adapters.Reads.{IsGuarded, get_list-IsGuarded}

abbrev show : List Text → Text
show xs = text "[]"

huawei_mac : mac_or_none show (string (text "0050-5684-01D7")) ≡ some (text "00:50:56:84:01:d7")
unfolding mac_or_none lower_char
huawei_mac = refl

megabits : kbit_to_mbps show (string (text " 1000000 Kbit")) ≡ some 1000
unfolding kbit_to_mbps lower_char
megabits = refl

speed : leading_int show (string (text "1000Mb/s")) ≡ some 1000
unfolding leading_int
speed = refl

abbrev states : List Spec
states =
    named (text "first")
    ∷ with_arguments ((text "enum_value", enum_arguments (text "OperStatus") (text "unknown")) ∷ [])
    ∷ []

up : apply_pipeline show (items (text " UP " ∷ [])) states ≡ ok (string (text "up"))
unfolding apply_pipeline first lower_char
up = refl

apply_pipeline-IsScalar_example : IsScalar (string (text "up"))
unfolding apply_pipeline first lower_char
apply_pipeline-IsScalar_example =
    apply_pipeline-IsScalar show states (items (text " UP " ∷ [])) (string (text "up"))
      (tt, ((tt, tt), tt)) (inr (λ e. absurd (cc))) refl

mac_or_none-round_trip_example :
    ((m : Text)
      → mac_or_none show (string (text "0050.5684.01d7")) ≡ some m
      → (normalize_mac m ≡ normalize_mac (text "0050.5684.01d7"))
        × (m ≡ colons (normalize_mac (text "0050.5684.01d7")))
        × (mac_or_none show (string m) ≡ some m))
    × (mac_or_none show (string (text "0050.5684.01d7")) ≡ none
        → normalize_mac (text "0050.5684.01d7") ≡ [])
    × (normalize_mac (text "0050.5684.01d7") ≡ []
        → mac_or_none show (string (text "0050.5684.01d7")) ≡ none)
mac_or_none-round_trip_example = mac_or_none-round_trip show (text "0050.5684.01d7")

abbrev source : Text → SourceSpec
source command = record { command = command; parser = text "ntc" }

abbrev info_spec : CapabilitySpec
info_spec = record {
  sources = source (text "show version") ∷ source (text "show host") ∷ [];
  drop_when_empty = [];
  fields =
      (
        text "hostname",
        from (some (text "hostname")) (named (text "strip_or_none") ∷ []) (string []),
      )
      ∷ (text "vendor", const (string (text "cisco")))
      ∷ [];
}

abbrev capabilities : Capability → Option CapabilitySpec
capabilities read_system_info = some info_spec
capabilities read_arp = some info_spec
capabilities _ = none

abbrev profile : VendorProfile
profile = record {
  adapter_id = text "cisco_ios";
  ntc_platform = some (text "cisco_ios");
  backup_command = none;
  has_port_vlan_control = false;
  capabilities = capabilities;
}

-- The first source knows no name.
abbrev rows_for : Text → List Row
rows_for command =
    if command == text "show host"
    then ((text "hostname", string (text "core")) ∷ []) ∷ []
    else ((text "hostname", string []) ∷ (text "version", string (text "15")) ∷ []) ∷ []

abbrev library_parsers : Parsers
library_parsers = record {
  parse_output = λ platform command d. ok (rows_for command);
  parse_template = λ template d. ok [];
}

-- The state is the list of the commands sent, the last one first.
abbrev send_command : Text → Action (List Text) Text
send_command command sent = (ok [], command ∷ sent)

abbrev kept : Dto Row
kept = record { validate = λ row. ok row; is_set = λ field row. true }

merged :
    (get_system_info show library_parsers profile send_command kept []).0
    ≡ ok ((text "hostname", string (text "core")) ∷ (text "vendor", string (text "cisco")) ∷ [])
unfolding get_system_info
merged = refl

answered :
    All
      (Answers show library_parsers profile send_command (λ s. rows_for s.command))
      info_spec.sources
unfolding parse_source
answered = (((λ s. refl), (refl, (refl, tt))), (((λ s. refl), (refl, tt)), tt))

get_system_info-merged_example :
    (row : Row) × ((get_system_info show library_parsers profile send_command kept []).0
      ≡ build_dto show kept info_spec.fields row)
    × ((key : Text)
        → lookup key row
          ≡ value_in key (map (λ s. first_row (rows_for s.command)) info_spec.sources) none)
get_system_info-merged_example =
    get_system_info-merged show library_parsers profile send_command (λ s. rows_for s.command) kept
      info_spec [] refl answered

get_list-IsGuarded_example :
    IsGuarded show library_parsers profile send_command kept
      (profile.capabilities read_arp)
      (get_list show library_parsers profile send_command read_arp kept []).0
      []
      (get_list show library_parsers profile send_command read_arp kept []).1
get_list-IsGuarded_example =
    get_list-IsGuarded show library_parsers profile send_command kept read_arp []
