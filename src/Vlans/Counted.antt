-- ===== src/Vlans/Counted.antt =====
-- The ports and the carriers in a survey, as it is reported.
use netbuddy.Base.{
  ℕ, ◌+◌, Text, false, ltb, text_lt, ◌||◌, contains, List, [], ◌∷◌, Option, none, some, nat_eq,
  list_eq, ◌==◌, Bool-cases, inl, inr, All, ◌≡◌, refl, sym, ap, subst, ◌∙◌, arith,
}
use netbuddy.Base.Dict.{
  lookup, insert, values, lookup-insert, HasDistinctKeys, insert-HasDistinctKeys, items-All,
}
use netbuddy.Vlans.Rows.{SviInfo, DeviceVlanInfo}
use netbuddy.Vlans.Survey.{
  VlanEntry, route, serve, change_entry, add_vlans, add_svis, add_servers, add_device, site_of,
  or_none, add_devices, place_entry, sort_entries, place_site, sort_sites, aggregate_survey,
}
use netbuddy.Vlans.Sums.{entry_at, add_devices-refines}
use netbuddy.Vlans.Totals.{ports_of, is_carrier, Totals, site_entry-Totals}

-- No VLAN stands twice in a site's table.
add_vlans-HasDistinctKeys :
    (dev : DeviceVlanInfo) (ds : List (ℕ × Option Text)) (vlans : List (ℕ × VlanEntry))
    → HasDistinctKeys vlans
    → HasDistinctKeys (add_vlans dev ds vlans)
unfolding add_vlans
add_vlans-HasDistinctKeys dev [] vlans h = h
add_vlans-HasDistinctKeys dev ((v, name) ∷ ds) vlans h =
    add_vlans-HasDistinctKeys dev ds _ (insert-HasDistinctKeys v _ vlans h)

change_entry-HasDistinctKeys :
    (dev : DeviceVlanInfo) (f : VlanEntry → VlanEntry) (v : ℕ) (o : Option VlanEntry)
    (vlans : List (ℕ × VlanEntry))
    → HasDistinctKeys vlans
    → HasDistinctKeys (change_entry dev f v o vlans)
change_entry-HasDistinctKeys dev f v none vlans h = h
change_entry-HasDistinctKeys dev f v (some e) vlans h = insert-HasDistinctKeys v (f e) vlans h

add_svis-HasDistinctKeys :
    (dev : DeviceVlanInfo) (svis : List SviInfo) (vlans : List (ℕ × VlanEntry))
    → HasDistinctKeys vlans
    → HasDistinctKeys (add_svis dev svis vlans)
unfolding add_svis
add_svis-HasDistinctKeys dev [] vlans h = h
add_svis-HasDistinctKeys dev (svi ∷ svis) vlans h = add_svis-HasDistinctKeys dev svis _ (
    change_entry-HasDistinctKeys dev (route dev svi) svi.vlan_id (lookup svi.vlan_id vlans) vlans h)

add_servers-HasDistinctKeys :
    (dev : DeviceVlanInfo) (ids : List ℕ) (vlans : List (ℕ × VlanEntry))
    → HasDistinctKeys vlans
    → HasDistinctKeys (add_servers dev ids vlans)
unfolding add_servers
add_servers-HasDistinctKeys dev [] vlans h = h
add_servers-HasDistinctKeys dev (v ∷ ids) vlans h =
    add_servers-HasDistinctKeys dev ids _
      (change_entry-HasDistinctKeys dev (serve dev) v (lookup v vlans) vlans h)

record IsTidy (sites : List (Text × List (ℕ × VlanEntry))) : Type 0 where
  sites_once : HasDistinctKeys sites
  vlans_once : (site : Text) → HasDistinctKeys (or_none (lookup site sites))

add_devices-IsTidy :
    (devs : List DeviceVlanInfo) (sites : List (Text × List (ℕ × VlanEntry)))
    → IsTidy sites
    → IsTidy (add_devices devs sites)
unfolding add_devices add_device
add_devices-IsTidy [] sites t = t
add_devices-IsTidy (dev ∷ devs) sites t =
    add_devices-IsTidy devs _ (record {
      sites_once = insert-HasDistinctKeys own vlans sites t.sites_once;
      vlans_once = once;
    })
  where
    own : Text
    own = site_of dev.site

    vlans : List (ℕ × VlanEntry)
    vlans = add_device dev (or_none (lookup own sites))

    tidy : HasDistinctKeys vlans
    tidy = add_servers-HasDistinctKeys dev dev.dhcp_server_vlans _ (
        add_svis-HasDistinctKeys dev dev.svis _
          (add_vlans-HasDistinctKeys dev dev.vlans _ (t.vlans_once own)))

    once : (site : Text) → HasDistinctKeys (or_none (lookup site (insert own vlans sites)))
    once site = elim (Bool-cases (own == site)) [
      | inl same ↦ rw (lookup-insert own site vlans sites, same) tidy
      | inr other ↦ rw (lookup-insert own site vlans sites, other) (t.vlans_once site)
    ]

-- An entry of a site has the ports that the site's devices have in its VLAN, and as carriers the names
-- of those that define it.
abbrev pub IsCounted : List DeviceVlanInfo → Text → VlanEntry → Type 0
IsCounted devs site e =
    (e.access_ports ≡ ports_of site e.vlan_id devs)
    × ((h : Text) → contains h e.carriers ≡ is_carrier site e.vlan_id devs h)

module _ (devs : List DeviceVlanInfo) (once : All (λ dev. HasDistinctKeys dev.vlans) devs) where
  tables : List (Text × List (ℕ × VlanEntry))
  tables = add_devices devs []

  entry-IsCounted :
      (site : Text) (v : ℕ) (e : VlanEntry)
      → entry_at site v tables ≡ some e
      → IsCounted devs site e
  unfolding tables
  entry-IsCounted site v e found =
      let t = site_entry-Totals site v devs 0 (λ h. false) none (refl, λ h. refl) in
      let (id, ports, carriers) =
        subst (Totals v (0 + ports_of site v devs) (λ h. false || is_carrier site v devs h))
          (sym (add_devices-refines devs [] site v once) ∙ found) t in
      subst
        (λ w.
          (e.access_ports ≡ ports_of site w devs)
          × ((h : Text) → contains h e.carriers ≡ is_carrier site w devs h))
        (sym id) (omega (arith, ports), carriers)

  table-IsCounted :
      (site : Text) (vlans : List (ℕ × VlanEntry))
      → lookup site tables ≡ some vlans
      → All (λ p. IsCounted devs site p.1) vlans
  unfolding tables
  table-IsCounted site vlans found =
      let tidy = add_devices-IsTidy devs [] (record { sites_once = tt; vlans_once = λ s. tt }) in
      let inner = subst (λ o. HasDistinctKeys (or_none o)) found (tidy.vlans_once site) in
      items-All (λ v e. IsCounted devs site e) vlans inner
        (λ v e at. entry-IsCounted site v e (ap (λ o. lookup v (or_none o)) found ∙ at))

place_entry-All :
    (P : VlanEntry → Type 0) (e : VlanEntry) (entries : List VlanEntry)
    → P e
    → All P entries
    → All P (place_entry e entries)
place_entry-All P e [] p h = (p, tt)
place_entry-All P e (f ∷ entries) p (q, h) = elim (Bool-cases (ltb f.vlan_id e.vlan_id)) [
  | inl before ↦ rw before (q, place_entry-All P e entries p h)
  | inr here ↦ rw here (p, (q, h))
]

sort_entries-All :
    (P : VlanEntry → Type 0) (vlans : List (ℕ × VlanEntry))
    → All (λ p. P p.1) vlans
    → All P (sort_entries (values vlans))
unfolding sort_entries
sort_entries-All P [] h = tt
sort_entries-All P ((v, e) ∷ vlans) (p, h) =
    place_entry-All P e (sort_entries (values vlans)) p (sort_entries-All P vlans h)

place_site-All :
    (P : Text × List VlanEntry → Type 0) (s : Text × List VlanEntry)
    (sites : List (Text × List VlanEntry))
    → P s
    → All P sites
    → All P (place_site s sites)
place_site-All P s [] p h = (p, tt)
place_site-All P s (t ∷ sites) p (q, h) = elim (Bool-cases (text_lt t.0 s.0)) [
  | inl before ↦ rw before (q, place_site-All P s sites p h)
  | inr here ↦ rw here (p, (q, h))
]

sort_sites-All :
    (P : Text → VlanEntry → Type 0) (sites : List (Text × List (ℕ × VlanEntry)))
    → All (λ s. All (λ p. P s.0 p.1) s.1) sites
    → All (λ s. All (P s.0) s.1) (sort_sites sites)
unfolding sort_sites
sort_sites-All P [] h = tt
sort_sites-All P ((site, vlans) ∷ sites) (p, h) =
    place_site-All (λ s. All (P s.0) s.1) (site, sort_entries (values vlans)) (sort_sites sites)
      (sort_entries-All (P site) vlans p) (sort_sites-All P sites h)

-- In the survey of devices whose dictionaries of VLANs have no key twice, each entry of a site counts
-- as access ports those that the site's devices have in the entry's VLAN and that define it, and has as
-- carriers exactly the names of these devices.
pub aggregate_survey-IsCounted :
    (devs : List DeviceVlanInfo)
    → All (λ dev. HasDistinctKeys dev.vlans) devs
    → All (λ s. All (IsCounted devs s.0) s.1) (aggregate_survey devs).sites
unfolding aggregate_survey tables
aggregate_survey-IsCounted devs once =
    let tidy = add_devices-IsTidy devs [] (record { sites_once = tt; vlans_once = λ s. tt }) in
    sort_sites-All (IsCounted devs) (add_devices devs []) (
      items-All (λ site vlans. All (λ p. IsCounted devs site p.1) vlans) (add_devices devs [])
        tidy.sites_once (table-IsCounted devs once))
