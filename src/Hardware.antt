-- ===== src/Hardware.antt =====
-- A switch behind its transport. The program reads and writes it through the `WriteTransport`
-- protocol of backend/src/netbuddy/services/poe.py and lldp_control.py and through its adapter's
-- `get_config` and `get_interfaces`. A switch is whatever answers: its answer, or the exception,
-- may depend on all that was sent before, which the state of an action lists, oldest first. A call
-- that raises is listed too, since the line may have reached the switch.
use netbuddy.Base.{ℕ, Text, List, [], ◌∷◌, ◌++◌, Option, Result, ok, Action}

pub data Op : Type 0 where
  command : Text → Op
  config : List Text → Op
  sleep_for : ℕ → Op
  fetch_config fetch_interfaces : Op

-- What the write paths read of an `InterfaceData`.
pub record PortRow : Type 0 where
  pub name : Text
  pub vlan_id : Option ℕ

pub record Switch : Type 0 where
  pub on_command : List Op → Text → Result Text
  pub on_config : List Op → List Text → Result Text
  pub on_get_config : List Op → Result Text
  pub on_get_interfaces : List Op → Result (List PortRow)

module _ (switch : Switch) where
  abbrev pub send_command : Text → Action (List Op) Text
  send_command cmd ops = (switch.on_command ops cmd, ops ++ command cmd ∷ [])

  abbrev pub send_config : List Text → Action (List Op) Text
  send_config lines ops = (switch.on_config ops lines, ops ++ config lines ∷ [])

  abbrev pub get_config : Action (List Op) Text
  get_config ops = (switch.on_get_config ops, ops ++ fetch_config ∷ [])

  abbrev pub get_interfaces : Action (List Op) (List PortRow)
  get_interfaces ops = (switch.on_get_interfaces ops, ops ++ fetch_interfaces ∷ [])

abbrev pub sleep : ℕ → Action (List Op) Unit
sleep seconds ops = (ok tt, ops ++ sleep_for seconds ∷ [])

-- An action that only computes, and may raise.
abbrev pub lift {ℓ} : {S A : Type ℓ} → Result A → Action S A
lift r s = (r, s)
