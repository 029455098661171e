-- ===== src/Control/PortVlan.antt =====
-- A port's access VLAN (backend/src/netbuddy/services/port_vlan.py). A profile's `verify_pattern` is
-- a regular expression: `searches pattern output` is `re.search` with `re.IGNORECASE`, of which
-- nothing is assumed.
pub mod Followed
pub mod Guarded
use netbuddy.Base.{
  ℕ, zero, suc, Text, text, lower, starts_with, is_infix, is_digit, decimal, Bool, true, false, not,
  ◌&&◌, ◌||◌, List, [], ◌∷◌, ◌++◌, Option, none, some, any, nat_eq, list_eq, ◌==◌, if◌then◌else◌,
  Result, ok, raised, Exception, Action, pure, throw, and_then, ◌>>=◌, ◌>>◌,
}
use netbuddy.Format.{format, format_all}
use netbuddy.Profile.{PortVlanControlSpec}
use netbuddy.Hardware.{Op, Switch, PortRow, send_command, send_config, get_interfaces, lift}
use netbuddy.Control.Bench.{Bench, InterfaceRow, on_switch}
use netbuddy.Control.Backup.{BackupResult, backup_device}
use netbuddy.Control.Physical.{is_physical}

pub record PortVlanResult : Type 0 where
  pub interface : Text
  pub vlan_id : ℕ
  pub backed_up : Bool
  pub saved : Option Bool
  pub verified : Option Bool

-- `pattern.replace("{vlan}", str(vlan))`: every occurrence, from the left.
abbrev placeholder : Text
placeholder = text "{vlan}"

-- `skip` counts the characters of an occurrence that are still to be dropped.
unfoldable pub replace_vlan : Text → ℕ → Text → Text
replace_vlan value skip [] = []
replace_vlan value zero (c ∷ s) =
    let replaced = value ++ replace_vlan value 5 s in
    let kept = c ∷ replace_vlan value zero s in
    if starts_with placeholder (c ∷ s) then replaced else kept
replace_vlan value (suc skip) (c ∷ s) = replace_vlan value skip s

-- `re.search(r"switchport access vlan \d+", output, re.IGNORECASE)`
abbrev is_followed_by_digit : Text → Text → Bool
is_followed_by_digit [] [] = false
is_followed_by_digit [] (c ∷ s) = is_digit c
is_followed_by_digit (c ∷ p) [] = false
is_followed_by_digit (c ∷ p) (d ∷ s) = c == d && is_followed_by_digit p s

unfoldable pub has_access_vlan : Text → Bool
has_access_vlan [] = false
has_access_vlan (c ∷ s) =
    is_followed_by_digit (text "switchport access vlan ") (lower (c ∷ s)) || has_access_vlan s

abbrev value_error : Exception
value_error = record { type_name = text "ValueError"; message = text "not a physical port" }

abbrev is_filled : Option Text → Option Text
is_filled (some (c ∷ s)) = some (c ∷ s)
is_filled _ = none

-- `if spec.verify_command and spec.verify_pattern`
abbrev both : Option Text → Option Text → Option (Text × Text)
both (some a) (some b) = some (a, b)
both _ _ = none

-- The port that the switch reports under that name, and the test of its VLAN.
unfoldable pub reported : Text → ℕ → List PortRow → Option Bool
reported name vlan [] = none
reported name vlan (p ∷ ports) =
    if p.name == name
    then (elim p.vlan_id [ none ↦ none | some v ↦ some (v == vlan) ])
    else reported name vlan ports

-- `row.vlan_id = result_vlan` on the first row of the device and the name.
unfoldable pub set_vlan : ℕ → Text → ℕ → List InterfaceRow → List InterfaceRow
set_vlan id name vlan [] = []
set_vlan id name vlan (r ∷ rows) =
    if r.device_id == id && r.name == name
    then record r { vlan_id = some vlan } ∷ rows
    else r ∷ set_vlan id name vlan rows

-- The lines of the change, in the context of the port.
unfoldable pub change_lines : PortVlanControlSpec → Text → List Text → Result (List Text)
change_lines spec name body = elim (format ((text "name", name) ∷ []) spec.interface_enter) [
  | raised e ↦ raised e
  | ok enter ↦ ok (spec.config_enter ++ enter ∷ (body ++ spec.interface_exit ∷ spec.config_exit))
]

module _ (searches : Text → Text → Bool) (switch : Switch) (spec : PortVlanControlSpec) where
  abbrev has_marker : Option Text → Text → Bool
  has_marker none output = true
  has_marker (some marker) output = is_infix (lower marker) (lower output)

  abbrev save_lines : List Text → Action Bench (Option Bool)
  save_lines [] = pure none
  save_lines (line ∷ lines) = do
    output ← on_switch (send_config switch (line ∷ lines))
    pure (some (has_marker (is_filled spec.save_marker) output))

  unfoldable pub save_config : Action Bench (Option Bool)
  save_config = save_lines spec.save

  abbrev show_verdict : Bool → Text → Text → Bool
  show_verdict is_reset pattern output =
      if searches pattern output
      then true
      else if is_reset
      then not (has_access_vlan output)
      else false

  -- `try`: the switch's own report of the port, and no verdict where it raises.
  abbrev read_back : Text → ℕ → Result (List PortRow) → Option Bool
  read_back name vlan (raised e) = none
  read_back name vlan (ok ports) = reported name vlan ports

  abbrev verify_by : Option (Text × Text) → Text → ℕ → Bool → Action Bench (Option Bool)
  verify_by none name vlan is_reset = λ s.
      let (result, after) = on_switch (get_interfaces switch) s in
      (ok (read_back name vlan result), after)
  verify_by (some (show, pattern)) name vlan is_reset = do
    cmd ← lift (format ((text "name", name) ∷ []) show)
    output ← on_switch (send_command switch cmd)
    pure (some (show_verdict is_reset (replace_vlan (decimal vlan) 0 pattern) output))

  unfoldable pub verify_vlan : Text → ℕ → Bool → Action Bench (Option Bool)
  unfolding reported replace_vlan has_access_vlan
  verify_vlan name vlan is_reset =
      verify_by (both (is_filled spec.verify_command) (is_filled spec.verify_pattern)) name vlan
        is_reset

  -- What is done once the change is sent: save, verify, and bring the inventory up to date.
  unfoldable pub after_change : ℕ → Text → ℕ → Bool → Action Bench PortVlanResult
  after_change id name vlan is_reset = do
    saved ← save_config
    verified ← verify_vlan name vlan is_reset
    λ s. (
      ok (record {
        interface = name;
        vlan_id = vlan;
        backed_up = true;
        saved = saved;
        verified = verified;
      }),
      record s { interfaces = set_vlan id name vlan s.interfaces },
    )

  -- What is done once the backup is made.
  unfoldable pub change : ℕ → Text → List Text → ℕ → Bool → Action Bench PortVlanResult
  unfolding change_lines
  change id name body vlan is_reset = do
    lines ← lift (change_lines spec name body)
    on_switch (send_config switch lines)
    after_change id name vlan is_reset

  module _ (sha256 : Text → Text) where
    unfoldable pub write_port_vlan : ℕ → Text → List Text → ℕ → Bool → Action Bench PortVlanResult
    write_port_vlan id name body vlan is_reset =
        if is_physical name
        then (backup_device sha256 id switch >> change id name body vlan is_reset)
        else throw value_error

    unfoldable pub assign_port_vlan : ℕ → Text → ℕ → Action Bench PortVlanResult
    assign_port_vlan id name vlan = do
      body ←
          lift (format_all ((text "vlan", decimal vlan) ∷ (text "name", name) ∷ []) spec.set_access)
      write_port_vlan id name body vlan false

    unfoldable pub reset_port_vlan : ℕ → Text → Action Bench PortVlanResult
    reset_port_vlan id name = do
      body ←
          lift (format_all ((text "vlan", text "1") ∷ (text "name", name) ∷ []) spec.reset_access)
      write_port_vlan id name body 1 true
