-- ===== src/Locations/Sticky.antt =====
-- The rows of access points that lost power, as the recovery of their ports reads them.
use netbuddy.Base.{
  ℕ, Text, true, false, List, [], ◌∷◌, Option, none, some, is_some, nat_eq, list_eq, pair_eq, ◌==◌,
  Bool-cases, inl, inr, ◌≡◌, refl, ap, ◌∙◌, All,
}
use mathlib.Core.Option.{some-injective}
use netbuddy.Base.Dict.{lookup, insert, lookup-insert, lookup-insert_self}
use netbuddy.Poe.Fleet.{ApLocation, add_ap, port_to_ap}
use netbuddy.Locations.Cloud.{ApMeta}
use netbuddy.Locations.Rows.{ApRow, ap_locations}
use netbuddy.Locations.Save.{write_row}
use netbuddy.Locations.Build.{Sources, aps_of, place_of, build_ap_locations}
use netbuddy.Locations.Refines.{is_usw_mac, build_ap_locations-refines}

insert-is_some :
    (k j : ℕ × Text) (r : ApLocation) (table : List ((ℕ × Text) × ApLocation))
    → is_some (lookup k table) ≡ true
    → is_some (lookup k (insert j r table)) ≡ true
insert-is_some k j r table h = elim (Bool-cases (j == k)) [
  | inl same ↦ ap is_some (lookup-insert j k r table) ∙ rw same refl
  | inr other ↦ ap is_some (lookup-insert j k r table) ∙ rw other h
]

add_ap-is_some :
    (k : ℕ × Text) (r : ApLocation) (id : Option ℕ) (port : Option Text)
    (table : List ((ℕ × Text) × ApLocation))
    → is_some (lookup k table) ≡ true
    → is_some (lookup k (add_ap r id port table)) ≡ true
add_ap-is_some k r none port table h = h
add_ap-is_some k r (some id) none table h = h
add_ap-is_some k r (some id) (some []) table h = h
add_ap-is_some k r (some id) (some (c ∷ s)) table h = insert-is_some k (id, c ∷ s) r table h

port_to_ap-is_some :
    (k : ℕ × Text) (rows : List ApLocation) (table : List ((ℕ × Text) × ApLocation))
    → is_some (lookup k table) ≡ true
    → is_some (lookup k (port_to_ap table rows)) ≡ true
unfolding port_to_ap
port_to_ap-is_some k [] table h = h
port_to_ap-is_some k (r ∷ rows) table h =
    port_to_ap-is_some k rows _ (add_ap-is_some k r r.device_id r.port table h)

-- A row with a port makes the recovery know this port.
port_to_ap-ap_locations :
    (mac : Text) (row : ApRow) (id c : ℕ) (s : Text) (rows : List (Text × ApRow))
    (table : List ((ℕ × Text) × ApLocation))
    → lookup mac rows ≡ some row
    → row.device_id ≡ some id
    → row.port ≡ some (c ∷ s)
    → is_some (lookup (id, c ∷ s) (port_to_ap table (ap_locations rows))) ≡ true
unfolding port_to_ap
port_to_ap-ap_locations mac row id c s [] table h d p = absurd (cc)
port_to_ap-ap_locations mac row id c s ((j, r) ∷ rows) table h d p = elim (Bool-cases (j == mac)) [
  | inr other ↦
      let h' : lookup mac rows ≡ some row = rw other at h in
      port_to_ap-ap_locations mac row id c s rows _ h' d p
  | inl same ↦
      let h' : some r ≡ some row = rw same at h in
      let e : r ≡ row = some-injective r row h' in
      let rd : r.device_id ≡ some id = ap (λ x. x.device_id) e ∙ d in
      let rp : r.port ≡ some (c ∷ s) = ap (λ x. x.port) e ∙ p in
      port_to_ap-is_some (id, c ∷ s) (ap_locations rows) _
        (rw (rd, rp) (ap is_some (lookup-insert_self (id, c ∷ s) _ table)))
]

-- An access point that is placed nowhere now, as one without power, keeps the place that its row had
-- and the time of that place, gets the state that the cloud tells, and the recovery still finds an
-- access point at its port. The MAC addresses of access points and of the local controllers'
-- switches are taken to be different.
pub build_ap_locations-sticky :
    (sources : Sources) (table : List (Text × ApRow)) (mac : Text) (meta : ApMeta) (row : ApRow)
    (id c : ℕ) (s : Text)
    → All (λ p. is_usw_mac sources.local_devices p.0 ≡ false) (aps_of sources)
    → is_usw_mac sources.local_devices mac ≡ false
    → lookup mac (aps_of sources) ≡ some meta
    → (place_of sources mac meta).loc ≡ none
    → lookup mac table ≡ some row
    → row.device_id ≡ some id
    → row.port ≡ some (c ∷ s)
    → let after = (build_ap_locations sources true table).1 in
      ((after_row : ApRow) × (lookup mac after ≡ some after_row)
        × (after_row.device_id ≡ some id)
        × (after_row.port ≡ some (c ∷ s))
        × (after_row.located_at ≡ row.located_at)
        × (after_row.status ≡ meta.status))
      × (is_some (lookup (id, c ∷ s) (port_to_ap [] (ap_locations after))) ≡ true)
unfolding write_row
build_ap_locations-sticky sources table mac meta row id c s apart other known nowhere found d p =
    let after = (build_ap_locations sources true table).1 in
    let row' = write_row sources.now meta (place_of sources mac meta) row in
    let at : lookup mac after ≡ some row' =
      (build_ap_locations-refines sources table apart).1 mac other ∙ rw (known, found) refl in
    let dev : row'.device_id ≡ some id = rw nowhere d in
    let port : row'.port ≡ some (c ∷ s) = rw nowhere p in
    (
      (row', at, dev, port, rw nowhere refl, rw nowhere refl),
      port_to_ap-ap_locations mac row' id c s after [] at dev port,
    )
