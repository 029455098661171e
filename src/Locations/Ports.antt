-- ===== src/Locations/Ports.antt =====
-- The ports at which access points are: which of two tables names them, and which of them share one.
use netbuddy.Base.{
  ℕ, ◌+◌, Text, text, Bool, true, false, ltb, count_if, List, [], ◌∷◌, Option, none, some, or_else,
  or_else_assoc, or_else-none, nat_eq, list_eq, pair_eq, option_eq, ◌==◌, pair_beq_iff, Bool-cases,
  Option-cases, inl, inr, if◌then◌else◌, ◌≡◌, refl, sym, ap, ◌∙◌, arith,
}
use mathlib.Core.Path.{fun_ext}
use netbuddy.Base.Dict.{lookup, insert, lookup-insert, lookup-setdefault}
use netbuddy.Discovery.Rows.{LldpNeighbor, MacAddressEntry}
use netbuddy.Locations.Cloud.{ApMeta, norm_mac}
use netbuddy.Locations.Switches.{
  Loc, Seen, joined, set_present, lldp_by_mac, macs_by_mac, switch_locations,
}
use netbuddy.Locations.Local.{ApIndex, local_ap_index}
use netbuddy.Locations.Placement.{
  place_key, or_zero, count_at, per_port, guessed_placement, placement,
}
use netbuddy.Locations.Build.{Sources, aps_of, heuristic, place_of}

-- The first row under a key that has a place.
abbrev pub first_place {ℓ} :
    {A : Type ℓ} → (A → Text) → (A → Option Loc) → Text → List A → Option Loc
first_place key place k [] = none
first_place key place k (r ∷ rows) =
    or_else (if key r == k then place r else none) (first_place key place k rows)

abbrev lldp_place : Seen → LldpNeighbor → Option Loc
lldp_place db n = joined db (text "lldp") n.local_device_id n.local_interface_id

abbrev mac_place : Seen → MacAddressEntry → Option Loc
mac_place db e = joined db (text "mac") e.device_id e.interface_id

if_same : {A : Type 0} (t : Bool) (x : A) → (if t then x else x) ≡ x
if_same true x = refl
if_same false x = refl

abbrev chassis_mac : LldpNeighbor → Text
chassis_mac n = norm_mac (some n.remote_chassis_id)

abbrev entry_mac : MacAddressEntry → Text
entry_mac e = norm_mac (some e.mac_address)

lookup-set_present :
    (k j : Text) (c : ℕ) (loc : Option Loc) (table : List (Text × Loc))
    → lookup (c ∷ j) (set_present k loc table)
      ≡ or_else (lookup (c ∷ j) table) (if k == c ∷ j then loc else none)
lookup-set_present [] j c loc table = sym (or_else-none (lookup (c ∷ j) table))
lookup-set_present (b ∷ k) j c none table = sym (
    ap (or_else (lookup (c ∷ j) table)) (if_same (b ∷ k == c ∷ j) none)
    ∙ or_else-none (lookup (c ∷ j) table))
lookup-set_present (b ∷ k) j c (some loc) table = lookup-setdefault (b ∷ k) (c ∷ j) loc table

lookup-lldp_by_mac :
    (db : Seen) (c : ℕ) (j : Text) (rows : List LldpNeighbor) (table : List (Text × Loc))
    → lookup (c ∷ j) (lldp_by_mac db rows table)
      ≡ or_else (lookup (c ∷ j) table) (first_place chassis_mac (lldp_place db) (c ∷ j) rows)
unfolding lldp_by_mac
lookup-lldp_by_mac db c j [] table = sym (or_else-none (lookup (c ∷ j) table))
lookup-lldp_by_mac db c j (n ∷ rows) table =
    lookup-lldp_by_mac db c j rows _
    ∙ ap (λ o. or_else o (first_place chassis_mac (lldp_place db) (c ∷ j) rows))
        (lookup-set_present (norm_mac (some n.remote_chassis_id)) j c (lldp_place db n) table)
    ∙ or_else_assoc (lookup (c ∷ j) table) _ _

lookup-macs_by_mac :
    (db : Seen) (c : ℕ) (j : Text) (rows : List MacAddressEntry) (table : List (Text × Loc))
    → lookup (c ∷ j) (macs_by_mac db rows table)
      ≡ or_else (lookup (c ∷ j) table) (first_place entry_mac (mac_place db) (c ∷ j) rows)
unfolding macs_by_mac
lookup-macs_by_mac db c j [] table = sym (or_else-none (lookup (c ∷ j) table))
lookup-macs_by_mac db c j (e ∷ rows) table =
    lookup-macs_by_mac db c j rows _
    ∙ ap (λ o. or_else o (first_place entry_mac (mac_place db) (c ∷ j) rows))
        (lookup-set_present (norm_mac (some e.mac_address)) j c (mac_place db e) table)
    ∙ or_else_assoc (lookup (c ∷ j) table) _ _

-- A MAC address is placed where the first LLDP neighbour with this chassis id was seen whose row
-- joins with its device and interface; only without such a neighbour, where the first such entry of
-- the tables of MAC addresses was.
pub switch_locations-lldp_first :
    (db : Seen) (c : ℕ) (mac : Text)
    → lookup (c ∷ mac) (switch_locations db).0
      ≡ or_else
          (first_place chassis_mac (lldp_place db) (c ∷ mac) db.lldp)
          (first_place entry_mac (mac_place db) (c ∷ mac) db.mac_table)
unfolding switch_locations
switch_locations-lldp_first db c mac =
    lookup-macs_by_mac db c mac db.mac_table (lldp_by_mac db db.lldp [])
    ∙ ap (λ o. or_else o (first_place entry_mac (mac_place db) (c ∷ mac) db.mac_table))
        (lookup-lldp_by_mac db c mac db.lldp [])

abbrev is_place : ℕ × Option Text → Option Loc → Bool
is_place key none = false
is_place key (some loc) = place_key loc == key

-- Whether the heuristic places an access point at a port.
abbrev pub is_placed_at : Sources → ℕ × Option Text → Text × ApMeta → Bool
is_placed_at sources key (mac, meta) = is_place key (heuristic sources mac meta)

count_at-per_port :
    (sources : Sources) (key : ℕ × Option Text) (aps : List (Text × ApMeta))
    (table : List ((ℕ × Option Text) × ℕ))
    → count_at key (per_port (heuristic sources) aps table)
      ≡ count_at key table + count_if (is_placed_at sources key) aps
unfolding per_port
count_at-per_port sources key [] table = omega arith
count_at-per_port sources key ((mac, meta) ∷ aps) table =
    elim (Option-cases (heuristic sources mac meta)) [
      | inl nowhere ↦ rw nowhere (count_at-per_port sources key aps table ∙ omega arith)
      | inr (loc, found) ↦
          let here = place_key loc in
          let table' = insert here (count_at here table + 1) table in
          rw found (
            count_at-per_port sources key aps table'
            ∙ ap (λ o. or_zero o + count_if (is_placed_at sources key) aps)
                (lookup-insert here key (count_at here table + 1) table)
            ∙ step loc)
    ]
  where
    step :
        (loc : Loc)
        → or_zero (
              if place_key loc == key
              then some (count_at (place_key loc) table + 1)
              else lookup key table)
            + count_if (is_placed_at sources key) aps
          ≡ count_at key table
            + ((if place_key loc == key then 1 else 0) + count_if (is_placed_at sources key) aps)
    step loc = elim (Bool-cases (place_key loc == key)) [
      | inl same ↦ rw same (
          let e : place_key loc ≡ key = (pair_beq_iff (place_key loc) key).0 same in
          rw e (omega arith))
      | inr apart ↦ rw apart (omega arith)
    ]

guessed_placement-shared :
    (counts : List ((ℕ × Option Text) × ℕ)) (status : Text) (loc : Loc)
    → ((guessed_placement counts status (some loc)).mesh ≡ ltb 1 (count_at (place_key loc) counts))
      × ((guessed_placement counts status (some loc)).loc ≡ some loc)
guessed_placement-shared counts status loc =
    elim (Bool-cases (ltb 1 (count_at (place_key loc) counts))) [
      | inl shared ↦ rw shared (refl, refl)
      | inr alone ↦ rw alone (refl, refl)
    ]

-- What decides whether an access point is taken to be meshed: the uplink that a local controller
-- knows of, or else how many access points share its port, or else whether it is online.
abbrev pub is_meshed : Option ApIndex → Option Loc → Text → (ℕ × Option Text → ℕ) → Bool
is_meshed (some i) raw status sharing = i.wireless
is_meshed none (some loc) status sharing = ltb 1 (sharing (place_key loc))
is_meshed none none status sharing = status == text "online"

-- Where it is: nowhere with a wireless uplink, and else where the controller or the heuristic says.
abbrev pub meshed_loc : Option ApIndex → Option Loc → Option Loc
meshed_loc (some i) raw = if i.wireless then none else or_else i.loc raw
meshed_loc none raw = raw

placement-meshed :
    (counts : List ((ℕ × Option Text) × ℕ)) (status : Text) (known : Option ApIndex)
    (raw : Option Loc)
    → ((placement counts status known raw).mesh
        ≡ is_meshed known raw status (λ key. count_at key counts))
      × ((placement counts status known raw).loc ≡ meshed_loc known raw)
unfolding placement
placement-meshed counts status (some i) raw = elim (Bool-cases i.wireless) [
  | inl wireless ↦ rw wireless (refl, refl)
  | inr wired ↦ rw wired (refl, refl)
]
placement-meshed counts status none (some loc) = guessed_placement-shared counts status loc
placement-meshed counts status none none = elim (Bool-cases (status == text "online")) [
  | inl online ↦ rw online (refl, refl)
  | inr off ↦ rw off (refl, refl)
]

-- An access point that a local controller knows is taken to be meshed exactly if its uplink is
-- wireless, and is at no port then; one that no controller knows and the heuristic places at a port,
-- exactly if the heuristic places more than one access point at this port; and one that neither
-- places, exactly if it is online. Without a wireless uplink it is where the controller says, or
-- else where the heuristic does.
pub place_of-meshed :
    (sources : Sources) (mac : Text) (meta : ApMeta)
    → (let known = lookup mac (local_ap_index sources.seen.devices sources.local_devices) in
        let raw = heuristic sources mac meta in
        ((place_of sources mac meta).mesh
          ≡ is_meshed known raw meta.status
              (λ key. count_if (is_placed_at sources key) (aps_of sources)))
        × ((place_of sources mac meta).loc ≡ meshed_loc known raw))
unfolding place_of
place_of-meshed sources mac meta =
    let known = lookup mac (local_ap_index sources.seen.devices sources.local_devices) in
    let raw = heuristic sources mac meta in
    let counts = per_port (heuristic sources) (aps_of sources) [] in
    let (mesh, at) = placement-meshed counts meta.status known raw in
    (
      mesh
          ∙ ap (is_meshed known raw meta.status)
              (fun_ext (λ key. count_at-per_port sources key (aps_of sources) [] ∙ omega arith)),
      at,
    )
