-- ===== src/Locations/Placement.antt =====
-- Where an access point is, and whether it hangs on a cable (`build_ap_locations` of
-- backend/src/netbuddy/services/endpoint_location.py).
use netbuddy.Base.{
  ℕ, ◌+◌, Text, text, upper, Bool, true, false, ltb, List, [], ◌∷◌, Option, none, some, or_else,
  nat_eq, list_eq, pair_eq, option_eq, ◌==◌, if◌then◌else◌,
}
use netbuddy.Base.Dict.{lookup, insert}
use netbuddy.Locations.Cloud.{ApMeta}
use netbuddy.Locations.Switches.{Loc}
use netbuddy.Locations.Local.{ApIndex}

-- The heuristic's place of an access point: by MAC address, or else by name.
unfoldable pub raw_loc : List (Text × Loc) → List (Text × Loc) → Text → ApMeta → Option Loc
raw_loc by_mac by_name mac meta = or_else (lookup mac by_mac) (lookup (upper meta.name) by_name)

abbrev pub place_key : Loc → ℕ × Option Text
place_key loc = (loc.device_id, loc.port)

abbrev pub or_zero : Option ℕ → ℕ
or_zero none = 0
or_zero (some n) = n

abbrev pub count_at : ℕ × Option Text → List ((ℕ × Option Text) × ℕ) → ℕ
count_at key table = or_zero (lookup key table)

abbrev pub count_loc : Option Loc → List ((ℕ × Option Text) × ℕ) → List ((ℕ × Option Text) × ℕ)
count_loc none table = table
count_loc (some loc) table = insert (place_key loc) (count_at (place_key loc) table + 1) table

unfoldable pub per_port :
    (Text → ApMeta → Option Loc)
    → List (Text × ApMeta)
    → List ((ℕ × Option Text) × ℕ)
    → List ((ℕ × Option Text) × ℕ)
per_port raw [] table = table
per_port raw ((mac, meta) ∷ aps) table = per_port raw aps (count_loc (raw mac meta) table)

-- Where an access point is, and whether it has no cable of its own.
pub record Placement : Type 0 where
  pub loc : Option Loc
  pub mesh : Bool
  pub mesh_reason : Option Text
  pub uplink_ap_mac : Option Text

abbrev wired_at : Option Loc → Placement
wired_at loc = record { loc = loc; mesh = false; mesh_reason = none; uplink_ap_mac = none }

-- An access point that a local controller knows.
abbrev known_placement : ApIndex → Option Loc → Placement
known_placement i raw =
    if i.wireless
    then record {
      loc = none;
      mesh = true;
      mesh_reason = some (text "Uplink wireless (Mesh) laut Controller");
      uplink_ap_mac = i.parent_ap;
    }
    else wired_at (or_else i.loc raw)

-- An access point of which only the cloud and the switches tell.
abbrev pub guessed_placement : List ((ℕ × Option Text) × ℕ) → Text → Option Loc → Placement
guessed_placement counts status (some loc) =
    if ltb 1 (count_at (place_key loc) counts)
    then record (wired_at (some loc)) {
      mesh = true;
      mesh_reason = some (text "mehrere APs an einem Port (gemesht/daisy-chained)");
    }
    else wired_at (some loc)
guessed_placement counts status none =
    if status == text "online"
    then record (wired_at none) {
      mesh = true;
      mesh_reason = some (text "online, aber an keinem Wired-Port gesehen (Wireless-Uplink/Mesh?)");
    }
    else wired_at none

unfoldable pub placement :
    List ((ℕ × Option Text) × ℕ) → Text → Option ApIndex → Option Loc → Placement
placement counts status none raw = guessed_placement counts status raw
placement counts status (some i) raw = known_placement i raw
