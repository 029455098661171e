-- ===== src/Unifi/Imported.antt =====
-- What an import of the devices of the UniFi cloud gives, and what it keeps
-- (backend/src/netbuddy/services/unifi_inventory.py).
use netbuddy.Base.{
  ℕ, suc, ◌+◌, ◌≤◌, ◌<◌, Text, Bool, true, false, keep, length, List, [], ◌∷◌, Option, none, some,
  nat_eq, list_eq, if◌then◌else◌, ok, and_then, inl, inr, ◌≡◌, refl, sym, ◌∙◌, subst, arith,
}
use netbuddy.Base.Dict.{lookup}
use netbuddy.Inventory.{DeviceType}
use netbuddy.Locations.Cloud.{CloudDevice, CloudGroup}
use netbuddy.Unifi.Raw.{str}
use netbuddy.Unifi.Import.{
  UnifiHost, ImportSummary, classify, or_given, Import, is_active, at_start, save, import_row,
  import_device, import_all, skip_group, is_on, import_groups, hosts_from, import_devices,
}
use netbuddy.Unifi.Tables.{length-keep, All-keep, one_or_none-le}
use netbuddy.Unifi.Done.{
  total, IsReady, IsDone, then-IsDone, skip_other-IsDone, create-IsDone, changed-IsDone,
}

module _ (site_for_ip : Text → Option ℕ) (credential_id : ℕ) where
  import_row-IsDone :
      (dtype : Option DeviceType) (ip name : Option Text) (dev : CloudDevice) (s : Import)
      → IsReady site_for_ip credential_id s
      → IsDone site_for_ip credential_id 1 s
          (import_row site_for_ip credential_id dtype ip name dev s)
  import_row-IsDone none ip name dev s ready = skip_other-IsDone site_for_ip credential_id s ready
  import_row-IsDone (some dtype) none name dev s ready =
      skip_other-IsDone site_for_ip credential_id s ready
  import_row-IsDone (some dtype) (some ip) none dev s ready =
      skip_other-IsDone site_for_ip credential_id s ready
  import_row-IsDone (some dtype) (some ip) (some name) dev s (names, links, new, older) =
      let p = is_active name in
      elim (one_or_none-le (λ d. d.id < s.next_device) (keep p s.devices)
        (subst (λ k. k ≤ 1) (sym (length-keep p s.devices)) (names name))
        (All-keep (λ d. d.id < s.next_device) p s.devices older)) [
          | inl (e, free) ↦
              subst
                (λ r.
                  IsDone site_for_ip credential_id 1 s
                    (and_then r (save site_for_ip credential_id dtype ip name dev) s))
                (sym e)
                (create-IsDone site_for_ip credential_id dtype ip name dev s
                  (sym (length-keep p s.devices) ∙ free) (names, links, new, older))
          | inr (d, e, old) ↦
              subst
                (λ r.
                  IsDone site_for_ip credential_id 1 s
                    (and_then r (save site_for_ip credential_id dtype ip name dev) s))
                (sym e)
                (changed-IsDone site_for_ip credential_id dtype ip name dev d s old
                  (names, links, new, older))
        ]

  import_device-IsDone :
      (dev : CloudDevice) (s : Import)
      → IsReady site_for_ip credential_id s
      → IsDone site_for_ip credential_id 1 s (import_device site_for_ip credential_id dev s)
  unfolding import_device
  import_device-IsDone dev s ready =
      import_row-IsDone (classify dev) (or_given dev.ip dev.ip_address) (or_given dev.name dev.mac)
        dev s ready

  import_all-IsDone :
      (devices : List CloudDevice) (s : Import)
      → IsReady site_for_ip credential_id s
      → IsDone site_for_ip credential_id
          (length devices)
          s
          (import_all site_for_ip credential_id devices s)
  unfolding import_all
  import_all-IsDone [] s ready = (refl, ready, omega arith, refl)
  import_all-IsDone (dev ∷ devices) s ready =
      then-IsDone site_for_ip credential_id 1 (length devices) (suc (length devices))
        (import_device site_for_ip credential_id dev) (import_all site_for_ip credential_id devices)
        s (omega arith) (import_device-IsDone dev s ready) (import_all-IsDone devices)

  -- The devices that the cloud has, host by host.
  abbrev pub devices_of : List CloudGroup → ℕ
  devices_of [] = 0
  devices_of (g ∷ groups) = length g.devices + devices_of groups

  group-IsDone :
      (on : Bool) (devices : List CloudDevice) (s : Import)
      → IsReady site_for_ip credential_id s
      → IsDone site_for_ip credential_id (length devices) s (
          (if on
              then import_all site_for_ip credential_id devices
              else (λ s. (ok tt, skip_group site_for_ip credential_id devices s)))
            s)
  group-IsDone true devices s ready = import_all-IsDone devices s ready
  group-IsDone false devices s ready = (refl, ready, omega arith, refl)

  import_groups-IsDone :
      (hosts : List (Text × UnifiHost)) (groups : List CloudGroup) (s : Import)
      → IsReady site_for_ip credential_id s
      → IsDone site_for_ip credential_id
          (devices_of groups)
          s
          (import_groups site_for_ip credential_id hosts groups s)
  unfolding import_groups
  import_groups-IsDone hosts [] s ready = (refl, ready, omega arith, refl)
  import_groups-IsDone hosts (g ∷ groups) s ready =
      then-IsDone site_for_ip credential_id (length g.devices) (devices_of groups)
        (length g.devices + devices_of groups)
        (if is_on site_for_ip credential_id (lookup (str g.host_id) hosts)
          then import_all site_for_ip credential_id g.devices
          else (λ s. (ok tt, skip_group site_for_ip credential_id g.devices s)))
        (import_groups site_for_ip credential_id hosts groups) s refl
        (group-IsDone (is_on site_for_ip credential_id (lookup (str g.host_id) hosts)) g.devices s
          ready)
        (import_groups-IsDone hosts groups)

  -- Let no two active devices have a name, no device two links to the credential, and the ids of
  -- devices and links be below the next one. Then an import gives a summary: no query of it finds
  -- two rows. Every device of every group is counted there exactly once, as created, updated or
  -- skipped, the table of devices has grown by the number of those created, and the tables are
  -- again as above.
  pub import_devices-counted :
      (hosts : List UnifiHost) (groups : List CloudGroup) (s : Import)
      → IsReady site_for_ip credential_id s
      → (m : ImportSummary) × ((import_devices site_for_ip credential_id hosts groups s).0 ≡ ok m)
        × (total m ≡ devices_of groups)
        × (length (import_devices site_for_ip credential_id hosts groups s).1.devices
            ≡ length s.devices + m.created)
        × IsReady site_for_ip credential_id
            (import_devices site_for_ip credential_id hosts groups s).1
  unfolding import_devices
  import_devices-counted hosts groups s ready =
      let (done, ready', sum, rows) =
        import_groups-IsDone (hosts_from credential_id [] hosts) groups (at_start s) ready in
      let s' =
        (import_groups site_for_ip credential_id (hosts_from credential_id [] hosts) groups
          (at_start s)).1 in
      subst
        (λ r.
          (m : ImportSummary) × ((and_then r (λ _ s. (ok s.summary, s)) s').0 ≡ ok m)
          × (total m ≡ devices_of groups)
          × (length (and_then r (λ _ s. (ok s.summary, s)) s').1.devices
              ≡ length s.devices + m.created)
          × IsReady site_for_ip credential_id (and_then r (λ _ s. (ok s.summary, s)) s').1)
        (sym done) (s'.summary, refl, sum ∙ omega arith, omega (arith, rows), ready')
