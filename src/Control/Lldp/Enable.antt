-- ===== src/Control/Lldp/Enable.antt =====
-- What switching LLDP on may send to the switch, and behind which backup.
use netbuddy.Base.{
  ℕ, Text, text, ◌≡◌, refl, ap, Bool, true, List, [], ◌∷◌, ◌++◌, ok, then_ok-eq-ok, ok_injective,
  ◌⊎◌, Result-cases, Bool-cases, inl, inr, All, subst,
}
use netbuddy.Format.{format}
use netbuddy.Profile.{LldpControlSpec}
use netbuddy.Hardware.{
  Op, command, config, fetch_interfaces, Switch, PortRow, send_command, send_config, get_interfaces,
}
use netbuddy.Control.Bench.{Bench, on_switch}
use netbuddy.Control.Sends.{Sends, Sends-refl, Sends-bind, Sends-one, IsReading}
use netbuddy.Control.Physical.{is_physical}
use netbuddy.Control.Lldp.{
  physical_names, port_lines, per_port, read_lldp_enabled, save_lines, configure, enable,
}

-- The lines for some ports, one block after the other, each in the context of a physical port.
pub data Blocks (spec : LldpControlSpec) : List Text → Type 0 where
  done : Blocks spec []
  block :
      {lines : List Text} (name enter : Text)
      → is_physical name ≡ true
      → format ((text "name", name) ∷ []) spec.interface_enter ≡ ok enter
      → Blocks spec lines
      → Blocks spec (enter ∷ (spec.enable_interface ++ spec.interface_exit ∷ lines))

-- The configuration lines that the path may send: global ones around blocks of physical ports.
abbrev pub IsEnabling : LldpControlSpec → List Text → Type 0
IsEnabling spec lines =
    (blocks : List Text) × Blocks spec blocks
    × (lines ≡ spec.config_enter ++ spec.enable_global ++ blocks ++ spec.config_exit)

abbrev pub IsStep : LldpControlSpec → Op → Type 0
IsStep spec op =
    IsReading op
    ⊎ (op ≡ config spec.save)
    ⊎ ((lines : List Text) × IsEnabling spec lines × (op ≡ config lines))

physical_names-physical :
    (ports : List PortRow) → All (λ name. is_physical name ≡ true) (physical_names ports)
unfolding physical_names
physical_names-physical [] = tt
physical_names-physical (p ∷ ports) = elim (Bool-cases (is_physical p.name)) [
  | inl physical ↦ rw physical (physical, physical_names-physical ports)
  | inr logical ↦ rw logical (physical_names-physical ports)
]

port_lines-Blocks :
    (spec : LldpControlSpec) (names lines : List Text)
    → All (λ name. is_physical name ≡ true) names
    → port_lines spec names ≡ ok lines
    → Blocks spec lines
unfolding port_lines
port_lines-Blocks spec [] lines h e = subst (Blocks spec) (ok_injective e) done
port_lines-Blocks spec (name ∷ names) lines (physical, h) e =
    let (enter, filled, rest) =
      then_ok-eq-ok (format ((text "name", name) ∷ []) spec.interface_enter) _ e in
    let (more, later, ends) = then_ok-eq-ok (port_lines spec names) _ rest in
    subst (Blocks spec) (ok_injective ends)
      (block name enter physical filled (port_lines-Blocks spec names more h later))

per_port-Blocks :
    (spec : LldpControlSpec) (enabling names : List Text) (out : List Text × ℕ)
    → All (λ name. is_physical name ≡ true) names
    → per_port spec enabling names ≡ ok out
    → Blocks spec out.0
unfolding per_port
per_port-Blocks spec [] names out h e = subst (λ o. Blocks spec o.0) (ok_injective e) done
per_port-Blocks spec (l ∷ ls) names out h e =
    let (lines, filled, ends) = then_ok-eq-ok (port_lines spec names) _ e in
    subst (λ (o : List Text × ℕ). Blocks spec o.0) (ok_injective ends)
      (port_lines-Blocks spec names lines h filled)

module _ (searches : Text → Text → Bool) (switch : Switch) (spec : LldpControlSpec) where
  read_lldp_enabled-Sends :
      (s : Bench) → Sends (IsStep spec) s (read_lldp_enabled searches switch spec s).1
  unfolding read_lldp_enabled
  read_lldp_enabled-Sends s =
      Sends-bind (on_switch (send_command switch spec.status_command)) _ s
        (Sends-one (send_command switch spec.status_command) (command spec.status_command) s refl
          (inl (inl (spec.status_command, refl))))
        (λ output t. Sends-refl t)

  save_lines-Sends :
      (lines : List Text) (s : Bench)
      → lines ≡ spec.save
      → Sends (IsStep spec) s (save_lines searches switch spec lines s).1
  save_lines-Sends [] s e = Sends-refl s
  save_lines-Sends (line ∷ lines) s e =
      Sends-bind (on_switch (send_config switch (line ∷ lines))) _ s
        (Sends-one (send_config switch (line ∷ lines)) (config (line ∷ lines)) s refl
          (inr (inl (ap config e))))
        (λ output t. Sends-refl t)

  -- The rest of the path, from the ports that the switch reported.
  configure-Sends :
      (was_enabled : Bool) (ports : List PortRow) (s : Bench)
      → Sends (IsStep spec) s (configure searches switch spec was_enabled ports s).1
  unfolding configure
  configure-Sends was_enabled ports s =
      let names = physical_names ports in
      elim (Result-cases (per_port spec spec.enable_interface names)) [
        | inl (e, fails) ↦ rw fails (Sends-refl s)
        | inr (out, filled) ↦
            let lines = spec.config_enter ++ spec.enable_global ++ out.0 ++ spec.config_exit in
            rw filled (
              Sends-bind (on_switch (send_config switch lines)) _ s
                (Sends-one (send_config switch lines) (config lines) s refl (
                  inr (
                    inr (
                      lines,
                      (
                        out.0,
                        per_port-Blocks spec spec.enable_interface names out
                            (physical_names-physical ports) filled,
                        refl,
                      ),
                      refl,
                    ))))
                (λ output t.
                  Sends-bind (save_lines searches switch spec spec.save) _ t
                    (save_lines-Sends spec.save t refl)
                    (λ saved u.
                      Sends-bind (read_lldp_enabled searches switch spec) _ u
                        (read_lldp_enabled-Sends u) (λ after v. Sends-refl v))))
      ]

  pub enable-Sends :
      (was_enabled : Bool) (s : Bench)
      → Sends (IsStep spec) s (enable searches switch spec was_enabled s).1
  unfolding enable
  enable-Sends was_enabled s =
      Sends-bind (on_switch (get_interfaces switch)) (configure searches switch spec was_enabled) s
        (Sends-one (get_interfaces switch) fetch_interfaces s refl (inl (inr refl)))
        (configure-Sends was_enabled)
