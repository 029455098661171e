-- ===== src/Locations/Refines.antt =====
-- What a rebuilt map leaves in the table, as a function of the MAC address.
use netbuddy.Base.{
  ℕ, Text, text, Bool, true, false, not, ◌||◌, ◌&&◌, any, List, [], ◌∷◌, Option, none, some,
  is_some, or_else, or_else-none, or_empty, All, nat_eq, list_eq, ◌==◌, list_beq_iff, Bool-cases,
  Option-cases, inl, inr, if◌then◌else◌, ◌≡◌, refl, ap, ap₂, subst, ◌∙◌, arith, ok,
}
use netbuddy.Base.Dict.{
  lookup, insert, lookup-insert, lookup-append, insert-All, HasDistinctKeys, insert-HasDistinctKeys,
}
use netbuddy.Inventory.{Device}
use netbuddy.Inventory.Switches.{resolve}
use netbuddy.Unifi.{UnifiDevice}
use netbuddy.Locations.Cloud.{
  CloudDevice, CloudGroup, has_ap_model, meta_of, ApMeta, norm_mac, add_cloud_device,
  add_cloud_devices, add_groups, unifi_aps,
}
use netbuddy.Locations.Local.{is_given, upstream_of}
use netbuddy.Locations.Rows.{ApRow, row_or_new}
use netbuddy.Locations.Placement.{Placement}
use netbuddy.Locations.Info.{infos_of, sort_infos}
use netbuddy.Locations.Save.{
  Session, save_row, save_rows, write_row, save_uplink, persist_uplink, persist_switch_uplinks,
}
use netbuddy.Locations.Build.{Sources, aps_of, place_of, built_session, build_ap_locations}

abbrev row_in : Text → Session → Option ApRow
row_in j s = or_else (lookup j s.existing) (lookup j s.added)

-- The row of an access point, as the cloud and the switches have it now.
abbrev pub row_after :
    ℕ → (Text → ApMeta → Placement) → Text → Option ApMeta → Option ApRow → Option ApRow
row_after now place mac none row = row
row_after now place mac (some meta) row =
    some (write_row now meta (place mac meta) (row_or_new mac row))

save_row-row_in :
    (mac j : Text) (w : ApRow → ApRow) (s : Session)
    → row_in j (save_row mac w s)
      ≡ (if mac == j then some (w (row_or_new mac (lookup mac s.existing))) else row_in j s)
save_row-row_in mac j w s = elim (Option-cases (lookup mac s.existing)) [
  | inl missing ↦
      let v = w (row_or_new mac none) in
      rw missing (ground (arith, missing, list_beq_iff mac j, lookup-insert mac j v s.added))
  | inr (row, found) ↦
      let v = w row in rw found (ground (arith, found, lookup-insert mac j v s.existing))
]

-- Another access point's row in `existing` stays.
save_row-existing :
    (mac j : Text) (w : ApRow → ApRow) (s : Session)
    → (mac == j) ≡ false
    → lookup j (save_row mac w s).existing ≡ lookup j s.existing
save_row-existing mac j w s other = elim (Option-cases (lookup mac s.existing)) [
  | inl missing ↦ rw missing
  | inr (row, found) ↦ rw found (lookup-insert mac j (w row) s.existing ∙ rw other)
]

-- Of an access point's row in `existing`, and of its row in the session.
abbrev written :
    ℕ
    → (Text → ApMeta → Placement)
    → Text
    → Option ApMeta
    → Option ApRow
    → Option ApRow
    → Option ApRow
written now place mac none before row = row
written now place mac (some meta) before row =
    some (write_row now meta (place mac meta) (row_or_new mac before))

save_rows-row_in :
    (now : ℕ) (place : Text → ApMeta → Placement) (aps : List (Text × ApMeta)) (s : Session)
    (j : Text)
    → HasDistinctKeys aps
    → row_in j (save_rows now place aps s)
      ≡ written now place j (lookup j aps) (lookup j s.existing) (row_in j s)
unfolding save_rows
save_rows-row_in now place [] s j h = refl
save_rows-row_in now place ((mac, meta) ∷ aps) s j (fresh, h) =
    let w = write_row now meta (place mac meta) in
    let s' = save_row mac w s in
    let rest = save_rows-row_in now place aps s' j h in
    elim (Bool-cases (mac == j)) [
      | inl same ↦
          let e = (list_beq_iff mac j).0 same in
          let absent : lookup j aps ≡ none = subst (λ k. lookup k aps ≡ none) e fresh in
          rest
          ∙ ap (λ o. written now place j o (lookup j s'.existing) (row_in j s')) absent
          ∙ save_row-row_in mac j w s
          ∙ rw same (
              ap
                (λ k. some (write_row now meta (place k meta) (row_or_new k (lookup k s.existing))))
                e)
      | inr other ↦ rw other (
          rest
          ∙ ap₂ (λ before row. written now place j (lookup j aps) before row)
              (save_row-existing mac j w s other) (save_row-row_in mac j w s ∙ rw other))
    ]

-- No added row has its MAC address in `existing`.
abbrev IsFresh : List (Text × ApRow) → List (Text × ApRow) → Type 0
IsFresh existing added = All (λ p. lookup p.0 existing ≡ none) added

All-lookup-insert :
    (mac : Text) (row : ApRow) (existing added : List (Text × ApRow))
    → is_some (lookup mac existing) ≡ true
    → IsFresh existing added
    → IsFresh (insert mac row existing) added
All-lookup-insert mac row existing [] found h = tt
All-lookup-insert mac row existing ((k, r) ∷ added) found (none_k, h) = (
  lookup-insert mac k row existing ∙ ground (arith, found, none_k, list_beq_iff mac k),
  All-lookup-insert mac row existing added found h,
)

save_row-IsFresh :
    (mac : Text) (w : ApRow → ApRow) (s : Session)
    → IsFresh s.existing s.added
    → IsFresh (save_row mac w s).existing (save_row mac w s).added
save_row-IsFresh mac w s h = elim (Option-cases (lookup mac s.existing)) [
  | inl missing ↦
      rw missing (
        insert-All (λ k. lookup k s.existing ≡ none) mac (w (row_or_new mac none)) s.added missing
          h)
  | inr (row, found) ↦
      rw found (All-lookup-insert mac (w row) s.existing s.added (ap is_some found) h)
]

save_rows-IsFresh :
    (now : ℕ) (place : Text → ApMeta → Placement) (aps : List (Text × ApMeta)) (s : Session)
    → IsFresh s.existing s.added
    → IsFresh (save_rows now place aps s).existing (save_rows now place aps s).added
unfolding save_rows
save_rows-IsFresh now place [] s h = h
save_rows-IsFresh now place ((mac, meta) ∷ aps) s h =
    let w = write_row now meta (place mac meta) in
    save_rows-IsFresh now place aps (save_row mac w s) (save_row-IsFresh mac w s h)

-- The added rows are those of access points.
save_row-All :
    (P : Text → Type 0) (mac : Text) (w : ApRow → ApRow) (s : Session)
    → P mac
    → All (λ p. P p.0) s.added
    → All (λ p. P p.0) (save_row mac w s).added
save_row-All P mac w s p h = elim (Option-cases (lookup mac s.existing)) [
  | inl missing ↦ rw missing (insert-All P mac (w (row_or_new mac none)) s.added p h)
  | inr (row, found) ↦ rw found h
]

save_rows-All :
    (P : Text → Type 0) (now : ℕ) (place : Text → ApMeta → Placement) (aps : List (Text × ApMeta))
    (s : Session)
    → All (λ p. P p.0) aps
    → All (λ p. P p.0) s.added
    → All (λ p. P p.0) (save_rows now place aps s).added
unfolding save_rows
save_rows-All P now place [] s h k = k
save_rows-All P now place ((mac, meta) ∷ aps) s (p, h) k =
    let w = write_row now meta (place mac meta) in
    save_rows-All P now place aps (save_row mac w s) h (save_row-All P mac w s p k)

-- Whether a MAC address is that of one of the controllers' switches, whose links are kept under it.
abbrev pub is_usw_mac : List UnifiDevice → Text → Bool
is_usw_mac local j = any (λ d. d.type == text "usw" && norm_mac (some d.mac) == j) local

save_uplink-lookup :
    (now : ℕ) (d : UnifiDevice) (up self : Option Device) (existing : List (Text × ApRow))
    (j : Text)
    → (norm_mac (some d.mac) == j) ≡ false
    → lookup j (save_uplink now d up self existing) ≡ lookup j existing
save_uplink-lookup now d none self existing j other = refl
save_uplink-lookup now d (some upstream) none existing j other = refl
save_uplink-lookup now d (some upstream) (some selfdev) existing j other =
    elim (Bool-cases (upstream.id == selfdev.id)) [
      | inl same ↦ rw same refl
      | inr apart ↦ rw apart (lookup-insert (norm_mac (some d.mac)) j _ existing ∙ rw other)
    ]

or_false : {a b : Bool} → (a || b) ≡ false → (a ≡ false) × (b ≡ false)
or_false {a} {b} h = ground (arith, h)

persist_uplink-lookup :
    (now : ℕ) (devices : List Device) (local : List UnifiDevice) (d : UnifiDevice)
    (existing : List (Text × ApRow)) (j : Text)
    → (d.type == text "usw" && norm_mac (some d.mac) == j) ≡ false
    → lookup j (persist_uplink now devices local d existing) ≡ lookup j existing
persist_uplink-lookup now devices local d existing j h = elim (Bool-cases (d.type == text "usw")) [
  | inr other ↦ rw other refl
  | inl usw ↦ elim (Bool-cases (is_given d.uplink_mac)) [
    | inr none_given ↦ rw (usw, none_given) refl
    | inl given ↦
        let apart : (norm_mac (some d.mac) == j) ≡ false = rw usw at h in
        rw (usw, given)
          (save_uplink-lookup now d (upstream_of devices local d.uplink_mac)
            (resolve devices d.name d.ip) existing j apart)
  ]
]

persist_switch_uplinks-lookup :
    (now : ℕ) (devices : List Device) (local rest : List UnifiDevice)
    (existing : List (Text × ApRow)) (j : Text)
    → is_usw_mac rest j ≡ false
    → lookup j (persist_switch_uplinks now devices local rest existing) ≡ lookup j existing
unfolding persist_switch_uplinks
persist_switch_uplinks-lookup now devices local [] existing j h = refl
persist_switch_uplinks-lookup now devices local (d ∷ rest) existing j h =
    let (here, later) = or_false h in
    persist_switch_uplinks-lookup now devices local rest
      (persist_uplink now devices local d existing) j later
    ∙ persist_uplink-lookup now devices local d existing j here

add_cloud_device-HasDistinctKeys :
    (d : CloudDevice) (aps : List (Text × ApMeta))
    → HasDistinctKeys aps
    → HasDistinctKeys (add_cloud_device d aps)
unfolding add_cloud_device
add_cloud_device-HasDistinctKeys d aps h =
    elim (Bool-cases
      (not (or_empty d.product_line == text "network") || not (has_ap_model (or_empty d.model)))) [
        | inl passed ↦ rw passed h
        | inr taken ↦
            rw taken
              (elim (norm_mac d.mac)
                as (λ k.
                  HasDistinctKeys (elim k [ [] ↦ aps | c ∷ s ↦ insert (c ∷ s) (meta_of d) aps ])) [
                    | [] ↦ h
                    | c ∷ s ↦ insert-HasDistinctKeys (c ∷ s) (meta_of d) aps h
                  ])
      ]

add_cloud_devices-HasDistinctKeys :
    (devices : List CloudDevice) (aps : List (Text × ApMeta))
    → HasDistinctKeys aps
    → HasDistinctKeys (add_cloud_devices devices aps)
unfolding add_cloud_devices
add_cloud_devices-HasDistinctKeys [] aps h = h
add_cloud_devices-HasDistinctKeys (d ∷ devices) aps h =
    add_cloud_devices-HasDistinctKeys devices _ (add_cloud_device-HasDistinctKeys d aps h)

add_groups-HasDistinctKeys :
    (groups : List CloudGroup) (aps : List (Text × ApMeta))
    → HasDistinctKeys aps
    → HasDistinctKeys (add_groups groups aps)
unfolding add_groups
add_groups-HasDistinctKeys [] aps h = h
add_groups-HasDistinctKeys (g ∷ groups) aps h =
    add_groups-HasDistinctKeys groups _ (add_cloud_devices-HasDistinctKeys g.devices aps h)

pub aps_of-HasDistinctKeys : (sources : Sources) → HasDistinctKeys (aps_of sources)
unfolding aps_of unifi_aps
aps_of-HasDistinctKeys sources = add_groups-HasDistinctKeys sources.groups [] tt

-- No row that was added stands in the way of the commit.
added-apart :
    (existing after added : List (Text × ApRow)) (macs : Text → Bool)
    → ((j : Text) → macs j ≡ false → lookup j after ≡ lookup j existing)
    → IsFresh existing added
    → All (λ p. macs p.0 ≡ false) added
    → any (λ p. is_some (lookup p.0 after)) added ≡ false
added-apart existing after [] macs same h k = refl
added-apart existing after ((j, r) ∷ added) macs same (none_j, h) (apart, k) =
    rw (same j apart, none_j) (added-apart existing after added macs same h k)

written-row_after :
    (now : ℕ) (place : Text → ApMeta → Placement) (mac : Text) (o : Option ApMeta)
    (row : Option ApRow)
    → written now place mac o row (or_else row none) ≡ row_after now place mac o row
written-row_after now place mac none row = or_else-none row
written-row_after now place mac (some meta) row = refl

module _ (sources : Sources) (table : List (Text × ApRow))
    (apart : All (λ p. is_usw_mac sources.local_devices p.0 ≡ false) (aps_of sources)) where
  saved : Session
  saved =
      save_rows sources.now (place_of sources) (aps_of sources)
        (record { existing = table; added = [] })

  commits :
      any
        (λ p. is_some (lookup p.0 (built_session sources table).existing))
        (built_session sources table).added
      ≡ false
  unfolding built_session saved
  commits =
      added-apart saved.existing (built_session sources table).existing saved.added
        (is_usw_mac sources.local_devices)
        (λ j h.
          persist_switch_uplinks-lookup sources.now sources.seen.devices sources.local_devices
            sources.local_devices saved.existing j h)
        (save_rows-IsFresh sources.now (place_of sources) (aps_of sources) _ tt)
        (save_rows-All (λ k. is_usw_mac sources.local_devices k ≡ false) sources.now
          (place_of sources) (aps_of sources) _ apart tt)

  row_in-built :
      (mac : Text)
      → is_usw_mac sources.local_devices mac ≡ false
      → row_in mac (built_session sources table)
        ≡ row_after sources.now
            (place_of sources)
            mac
            (lookup mac (aps_of sources))
            (lookup mac table)
  unfolding built_session saved
  row_in-built mac h =
      let start : Session = record { existing = table; added = [] } in
      ap (λ r. or_else r (lookup mac saved.added))
        (persist_switch_uplinks-lookup sources.now sources.seen.devices sources.local_devices
          sources.local_devices saved.existing mac h)
      ∙ save_rows-row_in sources.now (place_of sources) (aps_of sources) start mac
          (aps_of-HasDistinctKeys sources)
      ∙ written-row_after sources.now (place_of sources) mac (lookup mac (aps_of sources))
          (lookup mac table)

  -- Where no access point of the cloud has the MAC address of a local controller's switch, a map
  -- that is kept is committed, and answers the sorted list; the row of each MAC address but those of
  -- these switches is then a function of that row before and of what the cloud says of the access
  -- point: an access point's row is written, or added, with its present place if it has one, and any
  -- other row stays as it was.
  pub build_ap_locations-refines :
      ((build_ap_locations sources true table).0
        ≡ ok (sort_infos (infos_of sources.seen.devices (place_of sources) table (aps_of sources))))
      × ((mac : Text)
          → is_usw_mac sources.local_devices mac ≡ false
          → lookup mac (build_ap_locations sources true table).1
            ≡ row_after sources.now
                (place_of sources)
                mac
                (lookup mac (aps_of sources))
                (lookup mac table))
  unfolding build_ap_locations built_session saved
  build_ap_locations-refines = rw commits (
    refl,
    λ mac h.
        lookup-append mac (built_session sources table).existing (built_session sources table).added
        ∙ row_in-built mac h,
  )
