-- ===== src/Control/Lldp/Guarded.antt =====
-- How switching LLDP on can end, on every path.
use netbuddy.Base.{
  ℕ, Text, ◌≡◌, refl, ◌∙◌, Bool, List, [], ◌∷◌, ◌++◌, append_assoc, some, Result, ok, raised,
  Exception, and_then, ◌>>=◌, All,
}
use netbuddy.Profile.{LldpControlSpec}
use netbuddy.Hardware.{Op, command, fetch_config, Switch}
use netbuddy.Control.Bench.{Bench}
use netbuddy.Control.Backup.{
  latest, digest_of, store_backup, store_backup-ok, backup_device, store_backup-latest,
}
use netbuddy.Control.Lldp.{LldpEnableResult, read_lldp_enabled, enable, enable_lldp}
use netbuddy.Control.Lldp.Enable.{IsStep, enable-Sends}

-- `s` is the state before, `t` the one after.
pub data Enabled (switch : Switch) (spec : LldpControlSpec) (sha256 : Text → Text) (id : ℕ)
    (s : Bench) (result : Result LldpEnableResult) (t : Bench) : Type 0 where
  -- The status or the configuration could not be read: nothing else was sent, nothing is stored.
  not_backed_up :
      (e : Exception) (sent : List Op)
      → result ≡ raised e
      → t.ops ≡ s.ops ++ command spec.status_command ∷ sent
      → All (λ op. op ≡ fetch_config) sent
      → t.backups ≡ s.backups
      → t.interfaces ≡ s.interfaces
      → Enabled switch spec sha256 id s result t
  -- The configuration that the switch had is the device's newest backup, and what was sent after
  -- it are steps of the path.
  backed_up :
      (content : Text) (sent : List Op)
      → switch.on_get_config (s.ops ++ command spec.status_command ∷ []) ≡ ok content
      → digest_of (latest id t.backups) ≡ some (sha256 content)
      → t.ops ≡ s.ops ++ command spec.status_command ∷ fetch_config ∷ sent
      → All (IsStep spec) sent
      → t.interfaces ≡ s.interfaces
      → Enabled switch spec sha256 id s result t

module _ (searches : Text → Text → Bool) (switch : Switch) (spec : LldpControlSpec)
    (sha256 : Text → Text) (id : ℕ) where
  abbrev HasEnabled : Bench → Result LldpEnableResult × Bench → Type 0
  HasEnabled s outcome = Enabled switch spec sha256 id s outcome.0 outcome.1

  abbrev asked : Bench → Bench
  asked s = record s { ops = s.ops ++ command spec.status_command ∷ [] }

  abbrev fetched : Bench → Bench
  fetched s = record s { ops = (asked s).ops ++ fetch_config ∷ [] }

  -- The rest behind the answer to the request for the configuration.
  fetched-Enabled :
      (was_enabled : Bool) (s : Bench) (answer : Result Text)
      → switch.on_get_config (asked s).ops ≡ answer
      → HasEnabled s (
          let (backup, u) = and_then answer (store_backup sha256 id) (fetched s) in
          and_then backup (λ _. enable searches switch spec was_enabled) u)
  fetched-Enabled was_enabled s (raised e) fails =
      not_backed_up e (fetch_config ∷ []) refl (append_assoc s.ops _ _) (refl, tt) refl refl
  fetched-Enabled was_enabled s (ok content) reads =
      let (r, stored) = store_backup-ok sha256 id content (fetched s) in
      let (newest, _, ops, rows) = store_backup-latest sha256 id content (fetched s) in
      let u = (store_backup sha256 id content (fetched s)).1 in
      let sends = enable-Sends searches switch spec was_enabled u in
      rw stored (
        backed_up content sends.sent reads (rw sends.backups newest)
          (sends.ops ∙ rw ops (simp append_assoc)) sends.each (sends.interfaces ∙ rows))

  asked-Enabled :
      (s : Bench) (answer : Result Text)
      → HasEnabled s (
          let (status, u) =
            and_then answer
              (λ output (t : Bench). (ok (searches spec.enabled_marker output), t))
              (asked s) in
          and_then status
            (λ was_enabled.
              backup_device sha256 id switch >>= λ _. enable searches switch spec was_enabled)
            u)
  unfolding backup_device
  asked-Enabled s (raised e) = not_backed_up e [] refl refl tt refl refl
  asked-Enabled s (ok output) =
      fetched-Enabled (searches spec.enabled_marker output) s (switch.on_get_config (asked s).ops)
        refl

-- Switching LLDP on ends in one of two ways, whatever the switch answers: either the status or the
-- configuration could not be read, and then nothing but these two requests was sent and nothing is
-- stored; or the configuration that the switch had is the device's newest backup, by its digest,
-- and everything sent after it is a read, the profile's save sequence, or configuration lines that
-- consist of the profile's global lines around blocks of physical ports only. The rows of the
-- interfaces are left alone.
pub enable_lldp-Enabled :
    (searches : Text → Text → Bool) (switch : Switch) (spec : LldpControlSpec)
    (sha256 : Text → Text) (id : ℕ) (s : Bench)
    → (let (result, t) = enable_lldp searches switch spec sha256 id s in
        Enabled switch spec sha256 id s result t)
unfolding enable_lldp read_lldp_enabled
enable_lldp-Enabled searches switch spec sha256 id s =
    asked-Enabled searches switch spec sha256 id s (switch.on_command s.ops spec.status_command)
