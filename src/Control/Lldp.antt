-- ===== src/Control/Lldp.antt =====
-- Switching LLDP on (backend/src/netbuddy/services/lldp_control.py). A profile's `enabled_marker` is
-- a regular expression: `searches pattern output` is `re.search` with `re.IGNORECASE`, of which
-- nothing is assumed.
pub mod Enable
pub mod Guarded
use netbuddy.Base.{
  ℕ, zero, suc, ◌+◌, Text, text, Bool, true, false, List, [], ◌∷◌, ◌++◌, map, keep, length, Option,
  none, some, if◌then◌else◌, Result, ok, raised, Exception, then_ok, Action, pure, and_then, ◌>>=◌,
  ◌>>◌,
}
use netbuddy.Format.{format}
use netbuddy.Profile.{LldpControlSpec}
use netbuddy.Hardware.{Op, Switch, PortRow, send_command, send_config, get_interfaces, lift}
use netbuddy.Control.Bench.{Bench, on_switch}
use netbuddy.Control.Backup.{BackupResult, backup_device}
use netbuddy.Control.Physical.{is_physical}

pub record LldpEnableResult : Type 0 where
  pub was_enabled : Bool
  pub backed_up : Bool
  pub interfaces_configured : ℕ
  pub enabled_after : Bool
  pub saved : Option Bool

-- `[i.name for i in await adapter.get_interfaces() if is_physical(i.name)]`
unfoldable pub physical_names : List PortRow → List Text
physical_names [] = []
physical_names (p ∷ ports) =
    if is_physical p.name then p.name ∷ physical_names ports else physical_names ports

-- The lines of one port after the other: enter, enable, exit.
unfoldable pub port_lines : LldpControlSpec → List Text → Result (List Text)
port_lines spec [] = ok []
port_lines spec (name ∷ names) =
    then_ok (format ((text "name", name) ∷ []) spec.interface_enter) λ enter.
      then_ok (port_lines spec names)
        λ lines. ok (enter ∷ (spec.enable_interface ++ spec.interface_exit ∷ lines))

-- The lines of the ports, and how many ports get some: none if the profile enables LLDP globally.
unfoldable pub per_port : LldpControlSpec → List Text → List Text → Result (List Text × ℕ)
per_port spec [] names = ok ([], 0)
per_port spec (l ∷ ls) names = then_ok (port_lines spec names) λ lines. ok (lines, length names)

module _ (searches : Text → Text → Bool) (switch : Switch) (spec : LldpControlSpec) where
  unfoldable pub read_lldp_enabled : Action Bench Bool
  read_lldp_enabled = do
    output ← on_switch (send_command switch spec.status_command)
    pure (searches spec.enabled_marker output)

  abbrev pub save_lines : List Text → Action Bench (Option Bool)
  save_lines [] = pure none
  save_lines (line ∷ lines) = do on_switch (send_config switch (line ∷ lines)); pure (some true)

  -- What is done once the backup is made and the ports are known.
  unfoldable pub configure : Bool → List PortRow → Action Bench LldpEnableResult
  unfolding physical_names per_port read_lldp_enabled
  configure was_enabled ports = do
    (lines, configured) ← lift (per_port spec spec.enable_interface (physical_names ports))
    on_switch
        (send_config switch (spec.config_enter ++ spec.enable_global ++ lines ++ spec.config_exit))
    saved ← save_lines spec.save
    enabled_after ← read_lldp_enabled
    pure (record {
      was_enabled = was_enabled;
      backed_up = true;
      interfaces_configured = configured;
      enabled_after = enabled_after;
      saved = saved;
    })

  unfoldable pub enable : Bool → Action Bench LldpEnableResult
  unfolding configure
  enable was_enabled = on_switch (get_interfaces switch) >>= configure was_enabled

  unfoldable pub enable_lldp : (sha256 : Text → Text) → ℕ → Action Bench LldpEnableResult
  unfolding read_lldp_enabled
  enable_lldp sha256 device_id = do
    was_enabled ← read_lldp_enabled
    backup_device sha256 device_id switch
    enable was_enabled
