-- ===== src/Control/Backup.antt =====
-- The backup of a running configuration (backend/src/netbuddy/services/backup.py). `sha256` is
-- the hash, of which nothing is assumed.
use netbuddy.Base.{
  ℕ, Text, length, ◌≡◌, sym, ap, ◌∙◌, Bool, true, false, List, [], ◌∷◌, ◌++◌, Option, none, some,
  nat_eq, list_eq, ◌==◌, or_else, or_else_assoc, or_else-none, if◌then◌else◌, ok, Action, and_then,
  arith, inl, inr, list_beq_iff, ==_refl, Bool-cases, ◌↔◌,
}
use netbuddy.Hardware.{Switch, get_config}
use netbuddy.Control.Bench.{Bench, ConfigBackup, on_switch}

-- `_latest`: the newest backup of a device.
abbrev of_device : ℕ → ConfigBackup → Option ConfigBackup
of_device id b = if b.device_id == id then some b else none

abbrev pub latest : ℕ → List ConfigBackup → Option ConfigBackup
latest id [] = none
latest id (b ∷ backups) = or_else (latest id backups) (of_device id b)

pub record BackupResult : Type 0 where
  pub changed : Bool
  pub sha256 : Text
  pub size : ℕ

abbrev same_digest : Text → Option ConfigBackup → Bool
same_digest digest none = false
same_digest digest (some b) = b.sha256 == digest

module _ (sha256 : Text → Text) (device_id : ℕ) where
  -- What is done once the configuration is read.
  unfoldable pub store_backup : Text → Action Bench BackupResult
  store_backup content s =
      if same_digest (sha256 content) (latest device_id s.backups)
      then (ok (record { changed = false; sha256 = sha256 content; size = length content }), s)
      else (
        ok (record { changed = true; sha256 = sha256 content; size = length content }),
        record s {
          backups =
              s.backups
              ++ record { device_id = device_id; content = content; sha256 = sha256 content } ∷ [];
        },
      )

  unfoldable pub backup_device : Switch → Action Bench BackupResult
  backup_device switch s =
      and_then (switch.on_get_config s.ops) store_backup (on_switch (get_config switch) s).1

latest-append :
    (id : ℕ) (backups : List ConfigBackup) (b : ConfigBackup)
    → latest id (backups ++ b ∷ []) ≡ or_else (of_device id b) (latest id backups)
latest-append id [] b = sym (or_else-none (of_device id b))
latest-append id (a ∷ backups) b =
    ap (λ o. or_else o (of_device id a)) (latest-append id backups b)
    ∙ or_else_assoc (of_device id b) (latest id backups) (of_device id a)

-- The digest of a device's newest backup.
abbrev pub digest_of : Option ConfigBackup → Option Text
digest_of none = none
digest_of (some b) = some b.sha256

same_digest_iff :
    (digest : Text) (o : Option ConfigBackup)
    → (same_digest digest o ≡ true) ↔ (digest_of o ≡ some digest)
same_digest_iff digest none = ground arith
same_digest_iff digest (some b) = ground (arith, list_beq_iff b.sha256 digest)

module _ (sha256 : Text → Text) (device_id : ℕ) (content : Text) where
  abbrev copy : ConfigBackup
  copy = record { device_id = device_id; content = content; sha256 = sha256 content }

  copy-latest :
      (backups : List ConfigBackup)
      → digest_of (latest device_id (backups ++ copy ∷ [])) ≡ some (sha256 content)
  copy-latest backups =
      ap digest_of (latest-append device_id backups copy)
      ∙ ap (λ b. digest_of (or_else (if b then some copy else none) (latest device_id backups)))
          (==_refl device_id)

  stored_digest :
      (s : Bench)
      → digest_of (latest device_id (store_backup sha256 device_id content s).1.backups)
        ≡ some (sha256 content)
  unfolding store_backup
  stored_digest s = elim (Bool-cases (same_digest (sha256 content) (latest device_id s.backups))) [
    | inl same ↦ rw same ((same_digest_iff (sha256 content) (latest device_id s.backups)).0 same)
    | inr other ↦ rw other (copy-latest s.backups)
  ]

  store_again :
      (s : Bench)
      → digest_of (latest device_id s.backups) ≡ some (sha256 content)
      → store_backup sha256 device_id content s
        ≡ (ok (record { changed = false; sha256 = sha256 content; size = length content }), s)
  unfolding store_backup
  store_again s h = rw ((same_digest_iff (sha256 content) (latest device_id s.backups)).1 h)

  -- Storing a copy never raises.
  pub store_backup-ok :
      (s : Bench) → (r : BackupResult) × ((store_backup sha256 device_id content s).0 ≡ ok r)
  unfolding store_backup
  store_backup-ok s =
      elim (Bool-cases (same_digest (sha256 content) (latest device_id s.backups))) [
        | inl same ↦
            (record { changed = false; sha256 = sha256 content; size = length content }, rw same)
        | inr other ↦
            (record { changed = true; sha256 = sha256 content; size = length content }, rw other)
      ]

  store_backup_keeps :
      (s : Bench)
      → ((store_backup sha256 device_id content s).1.ops ≡ s.ops)
        × ((store_backup sha256 device_id content s).1.interfaces ≡ s.interfaces)
  unfolding store_backup
  store_backup_keeps s = ground arith

pub store_backup-latest :
    (sha256 : Text → Text) (device_id : ℕ) (content : Text) (s : Bench)
    → (let after = (store_backup sha256 device_id content s).1 in
        (digest_of (latest device_id after.backups) ≡ some (sha256 content))
        × (store_backup sha256 device_id content after ≡ (
          ok (record { changed = false; sha256 = sha256 content; size = length content }),
          after,
        ))
        × (after.ops ≡ s.ops)
        × (after.interfaces ≡ s.interfaces))
store_backup-latest sha256 device_id content s =
    let stored = stored_digest sha256 device_id content s in
    let (ops, interfaces) = store_backup_keeps sha256 device_id content s in
    (
      stored,
      store_again sha256 device_id content (store_backup sha256 device_id content s).1 stored,
      ops,
      interfaces,
    )
