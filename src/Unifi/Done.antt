-- ===== src/Unifi/Done.antt =====
-- What one device of the UniFi cloud does to the tables of the inventory, when they are as they should
-- be (backend/src/netbuddy/services/unifi_inventory.py).
use netbuddy.Base.{
  ℕ, suc, ◌+◌, ◌≤◌, ◌<◌, Text, count_if, keep, length, length-append, [], ◌∷◌, ◌++◌, Option, some,
  nat_eq, list_eq, list_beq_iff, All, All-append, Action, Result, ok, and_then, ◌>>◌, inl, inr, ◌≡◌,
  refl, sym, ◌∙◌, subst, arith,
}
use netbuddy.Inventory.{Device, DeviceType}
use netbuddy.Locations.Cloud.{CloudDevice}
use netbuddy.Unifi.Import.{
  ImportSummary, Import, is_active, is_link, api_link, new_device, changed, create, write_changes,
  link_unless, update, save, skip_other,
}
use netbuddy.Unifi.Tables.{
  length-keep, one_or_none-le, count_if-change_named, length-change_named, All-change_named,
  All-unit, count_if-append-zero, count_if-append-le, All-map,
}

-- The number of the devices that a summary speaks of.
abbrev pub total : ImportSummary → ℕ
total m = m.created + m.updated + m.skipped_disabled + m.skipped_other

module _ (site_for_ip : Text → Option ℕ) (credential_id : ℕ) where
  -- No two active devices have a name, no device has two links to the credential, and the devices
  -- and the links are older than the next id.
  abbrev pub IsReady : Import → Type 0
  IsReady s =
      ((name : Text) → count_if (is_active name) s.devices ≤ 1)
      × ((id : ℕ) → count_if (is_link credential_id id) s.links ≤ 1)
      × ((id : ℕ) → s.next_device ≤ id → count_if (is_link credential_id id) s.links ≡ 0)
      × All (λ d. d.id < s.next_device) s.devices

  -- A part of an import that speaks of `n` devices has succeeded: it leaves the tables ready, it
  -- has counted each of the devices once, and created as many rows as it counts.
  abbrev pub IsDone : ℕ → Import → Result (Unit {0}) × Import → Type 0
  IsDone n s (result, s') =
      (result ≡ ok tt)
      × IsReady s'
      × (total s'.summary ≡ total s.summary + n)
      × (length s'.devices + s.summary.created ≡ length s.devices + s'.summary.created)

  pub then-IsDone :
      (n k sum : ℕ) (m f : Action Import (Unit {0})) (s : Import)
      → sum ≡ n + k
      → IsDone n s (m s)
      → ((s' : Import) → IsReady s' → IsDone k s' (f s'))
      → IsDone sum s ((m >> f) s)
  then-IsDone n k all m f s parts (done, ready, sum, rows) h =
      let (done', ready', sum', rows') = h (m s).1 ready in
      subst (λ r. IsDone all s (and_then r (λ _. f) (m s).1)) (sym done)
        (done', ready', omega (arith, parts, sum, sum'), omega (arith, rows, rows'))

  pub skip_other-IsDone :
      (s : Import) → IsReady s → IsDone 1 s (ok tt, skip_other site_for_ip credential_id s)
  skip_other-IsDone s ready = (refl, ready, omega arith, refl)

  -- One more link, for a device that has none.
  pub link-IsReady :
      (s : Import) (id : ℕ)
      → count_if (is_link credential_id id) s.links ≡ 0
      → id < s.next_device
      → IsReady s
      → IsReady (record s { links = s.links ++ api_link credential_id id ∷ [] })
  link-IsReady s id free old (names, links, new, older) = (
    names,
    λ i.
        count_if-append-le (is_link credential_id i) s.links (api_link credential_id id) (links i)
          (λ same.
            let is_same : id ≡ i = ground arith in
            subst (λ i. count_if (is_link credential_id i) s.links ≡ 0) is_same free),
    λ i h.
        count_if-append-zero (is_link credential_id i) s.links (api_link credential_id id) (new i h)
          (ground arith),
    older,
  )

  pub create-IsDone :
      (dtype : DeviceType) (ip name : Text) (dev : CloudDevice) (s : Import)
      → count_if (is_active name) s.devices ≡ 0
      → IsReady s
      → IsDone 1 s (ok tt, create site_for_ip credential_id dtype ip name dev s)
  create-IsDone dtype ip name dev s free (names, links, new, older) =
      let d = new_device site_for_ip credential_id s.next_device dtype ip name dev in
      let grown = record s { devices = s.devices ++ d ∷ []; next_device = suc s.next_device } in
      let ready : IsReady grown = (
        (λ n. count_if-append-le (is_active n) s.devices d (names n) (λ same.
            subst (λ n. count_if (is_active n) s.devices ≡ 0) ((list_beq_iff name n).0 same) free)),
        links,
        (λ id h. new id (omega (arith, h))),
        All-append (λ d. d.id < suc s.next_device) s.devices (d ∷ [])
            (All-map (λ d. d.id < s.next_device) (λ d. d.id < suc s.next_device) s.devices
              (λ d h. omega (arith, h)) older)
            (omega arith, tt),
      ) in
      (
        refl,
        link-IsReady grown s.next_device (new s.next_device (omega arith)) (omega arith) ready,
        omega arith,
        omega (arith, length-append s.devices (d ∷ [])),
      )

  -- The link of a device that was there.
  pub update-IsDone :
      (device_id : ℕ) (s : Import)
      → device_id < s.next_device
      → IsReady s
      → IsDone 1 s (update site_for_ip credential_id device_id s)
  update-IsDone device_id s old ready =
      let p = is_link credential_id device_id in
      elim (one_or_none-le (λ _. Unit {0}) (keep p s.links)
        (subst (λ k. k ≤ 1) (sym (length-keep p s.links)) (ready.1 device_id))
        (All-unit (keep p s.links))) [
          | inl (e, free) ↦
              subst
                (λ r. IsDone 1 s (
                  and_then r
                    (λ link s. (ok tt, link_unless site_for_ip credential_id device_id link s)) s))
                (sym e)
                (
                  refl,
                  link-IsReady s device_id (sym (length-keep p s.links) ∙ free) old ready,
                  omega arith,
                  refl,
                )
          | inr (l, e, _) ↦
              subst
                (λ r. IsDone 1 s (
                  and_then r
                    (λ link s. (ok tt, link_unless site_for_ip credential_id device_id link s)) s))
                (sym e) (refl, ready, omega arith, refl)
        ]

  pub write_changes-IsReady :
      (dtype : DeviceType) (ip name : Text) (dev : CloudDevice) (s : Import)
      → IsReady s
      → IsReady (write_changes site_for_ip credential_id dtype ip name dev s)
  write_changes-IsReady dtype ip name dev s (names, links, new, older) =
      let f = changed site_for_ip credential_id dtype ip dev in
      (
        (λ n.
            subst (λ k. k ≤ 1) (sym (count_if-change_named n name f s.devices (λ d. refl)))
              (names n)),
        links,
        new,
        All-change_named (λ d. d.id < s.next_device) name f s.devices (λ d h. h) older,
      )

  pub changed-IsDone :
      (dtype : DeviceType) (ip name : Text) (dev : CloudDevice) (d : Device) (s : Import)
      → d.id < s.next_device
      → IsReady s
      → IsDone 1 s (save site_for_ip credential_id dtype ip name dev (some d) s)
  changed-IsDone dtype ip name dev d s old ready =
      let s' = write_changes site_for_ip credential_id dtype ip name dev s in
      let (done, ready', sum, rows) =
        update-IsDone d.id s' old (write_changes-IsReady dtype ip name dev s ready) in
      let same =
        length-change_named name (changed site_for_ip credential_id dtype ip dev) s.devices in
      (done, ready', sum, omega (arith, rows, same))
