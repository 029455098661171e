-- ===== src/Vlans/Sums.antt =====
-- What a survey says of a VLAN at a site, as a function of the devices.
use netbuddy.Base.{
  ℕ, Text, List, [], ◌∷◌, Option, none, some, nat_eq, list_eq, ◌==◌, list_beq_iff, nat_beq_iff,
  Bool-cases, Option-cases, inl, inr, if◌then◌else◌, All, ◌≡◌, refl, ap, ap₂, subst, ◌∙◌,
}
use netbuddy.Base.Dict.{lookup, insert, lookup-insert, HasDistinctKeys}
use netbuddy.Vlans.Rows.{SviInfo, DeviceVlanInfo}
use netbuddy.Vlans.Survey.{
  VlanEntry, entry_or_new, carry, route, serve, change_entry, add_vlans, add_svis, add_servers,
  add_device, site_of, or_none, add_devices,
}

-- The entry of a VLAN after a device.
abbrev pub carried : DeviceVlanInfo → ℕ → Option (Option Text) → Option VlanEntry → Option VlanEntry
carried dev j none o = o
carried dev j (some name) o = some (carry dev j name (entry_or_new j o))

abbrev pub map_entry : (VlanEntry → VlanEntry) → Option VlanEntry → Option VlanEntry
map_entry f none = none
map_entry f (some e) = some (f e)

abbrev pub routed : DeviceVlanInfo → ℕ → List SviInfo → Option VlanEntry → Option VlanEntry
routed dev j [] o = o
routed dev j (svi ∷ svis) o =
    routed dev j svis (if svi.vlan_id == j then map_entry (route dev svi) o else o)

abbrev pub served : DeviceVlanInfo → ℕ → List ℕ → Option VlanEntry → Option VlanEntry
served dev j [] o = o
served dev j (v ∷ ids) o = served dev j ids (if v == j then map_entry (serve dev) o else o)

abbrev pub device_entry : DeviceVlanInfo → ℕ → Option VlanEntry → Option VlanEntry
device_entry dev j o =
    served dev j dev.dhcp_server_vlans
      (routed dev j dev.svis (carried dev j (lookup j dev.vlans) o))

abbrev pub site_entry : Text → ℕ → List DeviceVlanInfo → Option VlanEntry → Option VlanEntry
site_entry site j [] o = o
site_entry site j (dev ∷ devs) o =
    site_entry site j devs (if site_of dev.site == site then device_entry dev j o else o)

lookup-add_vlans :
    (dev : DeviceVlanInfo) (ds : List (ℕ × Option Text)) (vlans : List (ℕ × VlanEntry)) (j : ℕ)
    → HasDistinctKeys ds
    → lookup j (add_vlans dev ds vlans) ≡ carried dev j (lookup j ds) (lookup j vlans)
unfolding add_vlans
lookup-add_vlans dev [] vlans j h = refl
lookup-add_vlans dev ((v, name) ∷ ds) vlans j (fresh, h) =
    let written : ℕ → VlanEntry = λ k. carry dev k name (entry_or_new k (lookup k vlans)) in
    let rest = lookup-add_vlans dev ds (insert v (written v) vlans) j h in
    elim (Bool-cases (v == j)) [
      | inl same ↦
          let e = (nat_beq_iff v j).0 same in
          let absent : lookup j ds ≡ none = subst (λ k. lookup k ds ≡ none) e fresh in
          rest
          ∙ ap₂ (carried dev j) absent (lookup-insert v j (written v) vlans)
          ∙ rw same (ap (λ k. some (written k)) e)
      | inr other ↦ rw other (
          rest
          ∙ ap (carried dev j (lookup j ds)) (lookup-insert v j (written v) vlans ∙ rw other refl))
    ]

lookup-change_entry :
    (dev : DeviceVlanInfo) (f : VlanEntry → VlanEntry) (v j : ℕ) (vlans : List (ℕ × VlanEntry))
    → lookup j (change_entry dev f v (lookup v vlans) vlans)
      ≡ (if v == j then map_entry f (lookup j vlans) else lookup j vlans)
lookup-change_entry dev f v j vlans = elim (Option-cases (lookup v vlans)) [
  | inl missing ↦ rw missing (elim (Bool-cases (v == j)) [
    | inl same ↦ rw same (
        let e = (nat_beq_iff v j).0 same in
        let absent : lookup j vlans ≡ none = subst (λ k. lookup k vlans ≡ none) e missing in
        rw absent refl)
    | inr other ↦ rw other refl
  ])
  | inr (entry, found) ↦ rw found (
      lookup-insert v j (f entry) vlans ∙ (elim (Bool-cases (v == j)) [
        | inl same ↦ rw same (
            let e = (nat_beq_iff v j).0 same in
            let there : lookup j vlans ≡ some entry =
              subst (λ k. lookup k vlans ≡ some entry) e found in
            rw there refl)
        | inr other ↦ rw other refl
      ]))
]

lookup-add_svis :
    (dev : DeviceVlanInfo) (svis : List SviInfo) (vlans : List (ℕ × VlanEntry)) (j : ℕ)
    → lookup j (add_svis dev svis vlans) ≡ routed dev j svis (lookup j vlans)
unfolding add_svis
lookup-add_svis dev [] vlans j = refl
lookup-add_svis dev (svi ∷ svis) vlans j =
    lookup-add_svis dev svis _ j
    ∙ ap (routed dev j svis) (lookup-change_entry dev (route dev svi) svi.vlan_id j vlans)

lookup-add_servers :
    (dev : DeviceVlanInfo) (ids : List ℕ) (vlans : List (ℕ × VlanEntry)) (j : ℕ)
    → lookup j (add_servers dev ids vlans) ≡ served dev j ids (lookup j vlans)
unfolding add_servers
lookup-add_servers dev [] vlans j = refl
lookup-add_servers dev (v ∷ ids) vlans j =
    lookup-add_servers dev ids _ j
    ∙ ap (served dev j ids) (lookup-change_entry dev (serve dev) v j vlans)

lookup-add_device :
    (dev : DeviceVlanInfo) (vlans : List (ℕ × VlanEntry)) (j : ℕ)
    → HasDistinctKeys dev.vlans
    → lookup j (add_device dev vlans) ≡ device_entry dev j (lookup j vlans)
unfolding add_device
lookup-add_device dev vlans j h =
    lookup-add_servers dev dev.dhcp_server_vlans
      (add_svis dev dev.svis (add_vlans dev dev.vlans vlans)) j
    ∙ ap (served dev j dev.dhcp_server_vlans) (
        lookup-add_svis dev dev.svis (add_vlans dev dev.vlans vlans) j
        ∙ ap (routed dev j dev.svis) (lookup-add_vlans dev dev.vlans vlans j h))

abbrev pub entry_at : Text → ℕ → List (Text × List (ℕ × VlanEntry)) → Option VlanEntry
entry_at site j sites = lookup j (or_none (lookup site sites))

-- The tables of the sites are a function from a site and a VLAN to an entry: each device changes the
-- entries of its own site, and there only those of its VLANs, interfaces and DHCP servers.
pub add_devices-refines :
    (devs : List DeviceVlanInfo) (sites : List (Text × List (ℕ × VlanEntry))) (site : Text) (j : ℕ)
    → All (λ dev. HasDistinctKeys dev.vlans) devs
    → entry_at site j (add_devices devs sites) ≡ site_entry site j devs (entry_at site j sites)
unfolding add_devices
add_devices-refines [] sites site j h = refl
add_devices-refines (dev ∷ devs) sites site j (h, hs) =
    let own = site_of dev.site in
    let vlans = add_device dev (or_none (lookup own sites)) in
    add_devices-refines devs (insert own vlans sites) site j hs
    ∙ ap (site_entry site j devs) (
        ap (λ o. lookup j (or_none o)) (lookup-insert own site vlans sites)
        ∙ (elim (Bool-cases (own == site)) [
          | inr other ↦ rw other refl
          | inl same ↦ rw same (
              lookup-add_device dev (or_none (lookup own sites)) j h
              ∙ ap (λ s. device_entry dev j (lookup j (or_none (lookup s sites))))
                  ((list_beq_iff own site).0 same))
        ]))
