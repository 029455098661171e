-- ===== src/Poe/Bounce.antt =====
-- Reading the PoE state of a switch, and bouncing one of its ports
-- (backend/src/netbuddy/services/poe.py).
pub mod Trace
use netbuddy.Base.{
  ℕ, Text, text, Bool, true, false, ◌&&◌, ◌||◌, List, [], ◌∷◌, ◌++◌, map, Option, none, some,
  nat_eq, list_eq, ◌==◌, if◌then◌else◌, Action, Result, ok, raised, pure, ◌>>=◌, ◌>>◌,
}
use netbuddy.Base.Dict.{lookup}
use netbuddy.Format.{format, prepend}
use netbuddy.Profile.{PoeControlSpec}
use netbuddy.Hardware.{Op, Switch, send_command, send_config, sleep, lift}
use netbuddy.Poe.Port.{PoePort, delivering}
use netbuddy.Poe.Parse.{Parser, parsers, has_no_poe}

-- `p.link_up = links.get(p.port)` over the dictionary's values.
unfoldable pub with_links : List (Text × Bool) → List (Text × PoePort) → List PoePort
with_links links [] = []
with_links links ((key, p) ∷ ports) =
    record p { link_up = lookup p.port links } ∷ with_links links ports

module _ (switch : Switch) (spec : PoeControlSpec) where
  unfoldable pub read_links : Parser → List (Text × PoePort) → Action (List Op) (List PoePort)
  read_links parser [] = pure []
  read_links parser (p ∷ ports) = do
    link_out ← send_command switch spec.link_command
    pure (with_links (parser.link link_out) (p ∷ ports))

  unfoldable pub scan_with : Parser → Action (List Op) (List PoePort)
  scan_with parser = do
    power_out ← send_command switch spec.status_command
    if has_no_poe power_out then pure [] else read_links parser (parser.power power_out)

  unfoldable pub scan_by : Option Parser → Action (List Op) (List PoePort)
  scan_by none = pure []
  scan_by (some parser) = scan_with parser

  unfoldable pub scan_poe : Action (List Op) (List PoePort)
  scan_poe = scan_by (lookup spec.parser parsers)

-- The first port of that name.
unfoldable pub find_port : Text → List PoePort → Option PoePort
find_port port [] = none
find_port port (p ∷ ps) = if p.port == port then some p else find_port port ps

pub record PoeRecoverResult : Type 0 where
  pub port : Text
  pub status_before : Option Text
  pub status_after : Option Text
  pub recovered : Bool

abbrev pub is_true : Option Bool → Bool
is_true (some true) = true
is_true _ = false

abbrev status_of : Option PoePort → Option Text
status_of none = none
status_of (some p) = some p.poe_status

unfoldable pub is_recovered : Option PoePort → Bool
unfolding delivering
is_recovered none = false
is_recovered (some p) = delivering p || is_true p.link_up

-- The inner function `seq`: the commands inside the port's context.
unfoldable pub seq : PoeControlSpec → Text → List Text → Result (List Text)
unfolding format
seq spec port commands = elim (format ((text "name", port) ∷ []) spec.interface_enter) [
  | raised e ↦ raised e
  | ok enter ↦
      ok (spec.config_enter ++ enter ∷ (commands ++ spec.interface_exit ∷ spec.config_exit))
]

-- The result of a bounce. The message `detail` is left out: it prints `recover_down`, the seconds
-- and `recover_up`.
unfoldable pub report : Text → (before after : Option PoePort) → PoeRecoverResult
unfolding is_recovered
report port before after = record {
  port = port;
  status_before = status_of before;
  status_after = status_of after;
  recovered = is_recovered after;
}

module _ (switch : Switch) (spec : PoeControlSpec) (port : Text) where
  unfoldable pub port_status : Action (List Op) (Option PoePort)
  port_status = do ports ← scan_poe switch spec; pure (find_port port ports)

  -- The second half of `recover_port`: open the port, wait, and look again.
  unfoldable pub open_port : Option PoePort → Action (List Op) PoeRecoverResult
  open_port before = do
    up ← lift (seq spec port spec.recover_up)
    send_config switch up
    sleep spec.recover_wait_seconds
    after ← port_status
    pure (report port before after)

  -- The first half: shut the port and wait.
  unfoldable pub shut_port : Option PoePort → Action (List Op) PoeRecoverResult
  shut_port before = do
    down ← lift (seq spec port spec.recover_down)
    send_config switch down
    sleep spec.recover_wait_seconds
    open_port before

  unfoldable pub recover_port : Action (List Op) PoeRecoverResult
  recover_port = do before ← port_status; shut_port before
