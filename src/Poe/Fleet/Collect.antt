-- ===== src/Poe/Fleet/Collect.antt =====
-- What the fleet's scan may call stuck.
use netbuddy.Base.{◌≡◌, true, false, [], some, nat_eq, list_eq, pair_eq}
use netbuddy.Base.Dict.{lookup}
use netbuddy.Poe.Port.{is_stuck}
use netbuddy.Poe.Fleet.{
  StuckHit, Profiles, poe_spec, device_credential, Job, port_to_ap, Fleet, Tables,
}

-- What makes a hit worth a bounce: the device is in use, its profile has the PoE path that is
-- taken, the credential is linked to it, the port belongs to the access point, and is stuck.
pub record IsJustified (profiles : Profiles) (db : Tables) (h : StuckHit) : Type 0 where
  pub in_use : h.device.deleted ≡ false
  pub profiled : poe_spec profiles h.device.adapter_id ≡ some h.spec
  pub linked : device_credential db.links db.credentials h.device ≡ some h.cred
  pub located : lookup (h.device.id, h.port.port) (port_to_ap [] db.ap_rows) ≡ some h.ap
  pub stuck : is_stuck h.port (some h.ap.status) ≡ true

module _ (profiles : Profiles) (db : Tables) where
  abbrev IsJob : Job → Type 0
  IsJob job =
      (job.device.deleted ≡ false)
      × (poe_spec profiles job.device.adapter_id ≡ some job.spec)
      × (device_credential db.links db.credentials job.device ≡ some job.cred)
