-- ===== src/Control/PortVlan/Followed.antt =====
-- What follows the change of a port's VLAN: the profile's save sequence, and reads.
use netbuddy.Base.{
  ℕ, Text, text, ◌≡◌, refl, ◌∙◌, ap, Bool, true, List, [], ◌∷◌, ◌++◌, Option, none, some, Result,
  ok, raised, and_then, ◌>>=◌, All, ◌⊎◌, inl, inr,
}
use netbuddy.Format.{format}
use netbuddy.Profile.{PortVlanControlSpec}
use netbuddy.Hardware.{
  Op, config, command, fetch_interfaces, Switch, send_command, send_config, get_interfaces, lift,
}
use netbuddy.Control.Bench.{Bench, on_switch}
use netbuddy.Control.Sends.{Sends, Sends-refl, Sends-trans, Sends-bind, Sends-one, IsReading}
use netbuddy.Control.PortVlan.{
  PortVlanResult, both, is_filled, set_vlan, save_lines, save_config, verify_by, verify_vlan,
  after_change,
}

-- What may follow the change: the profile's save sequence, and reads.
abbrev pub IsAfter : PortVlanControlSpec → Op → Type 0
IsAfter spec op = (op ≡ config spec.save) ⊎ IsReading op

module _ (searches : Text → Text → Bool) (switch : Switch) (spec : PortVlanControlSpec) where
  save_lines-Sends :
      (lines : List Text) (s : Bench)
      → lines ≡ spec.save
      → Sends (IsAfter spec) s (save_lines searches switch spec lines s).1
  save_lines-Sends [] s e = Sends-refl s
  save_lines-Sends (line ∷ lines) s e =
      Sends-bind (on_switch (send_config switch (line ∷ lines))) _ s
        (Sends-one (send_config switch (line ∷ lines)) (config (line ∷ lines)) s refl
          (inl (ap config e)))
        (λ output t. Sends-refl t)

  verify_by-Sends :
      (patterns : Option (Text × Text)) (name : Text) (vlan : ℕ) (is_reset : Bool) (s : Bench)
      → Sends (IsAfter spec) s (verify_by searches switch spec patterns name vlan is_reset s).1
  verify_by-Sends none name vlan is_reset s =
      Sends-one (get_interfaces switch) fetch_interfaces s refl (inr (inr refl))
  verify_by-Sends (some (show, pattern)) name vlan is_reset s =
      Sends-bind (lift (format ((text "name", name) ∷ []) show)) _ s (Sends-refl s) (λ cmd t.
        Sends-bind (on_switch (send_command switch cmd)) _ t
          (Sends-one (send_command switch cmd) (command cmd) t refl (inr (inl (cmd, refl))))
          (λ output u. Sends-refl u))

  -- How a change ends: the rows of the inventory are brought up to date, or, when a call raised,
  -- left as they were.
  abbrev pub Rows : ℕ → Text → ℕ → Bench → Result PortVlanResult → Bench → Type 0
  Rows id name vlan s (raised e) t = t.interfaces ≡ s.interfaces
  Rows id name vlan s (ok r) t =
      (t.interfaces ≡ set_vlan id name vlan s.interfaces)
      × (r.interface ≡ name)
      × (r.vlan_id ≡ vlan)

  -- What follows the change.
  pub record Followed (id : ℕ) (name : Text) (vlan : ℕ) (s : Bench)
      (outcome : Result PortVlanResult × Bench) : Type 0 where
    pub sent : List Op
    pub ops : outcome.1.ops ≡ s.ops ++ sent
    pub each : All (IsAfter spec) sent
    pub backups : outcome.1.backups ≡ s.backups
    pub rows : Rows id name vlan s outcome.0 outcome.1

  finish-Followed :
      (id : ℕ) (name : Text) (vlan : ℕ) (s t : Bench) (saved : Option Bool)
      (verified : Result (Option Bool))
      → Sends (IsAfter spec) s t
      → Followed id name vlan s (
          and_then verified
            (λ (v : Option Bool) (u : Bench). (
              ok (record {
                interface = name;
                vlan_id = vlan;
                backed_up = true;
                saved = saved;
                verified = v;
              }),
              record u { interfaces = set_vlan id name vlan u.interfaces },
            ))
            t)
  finish-Followed id name vlan s t saved (raised e) sends = record {
    sent = sends.sent;
    ops = sends.ops;
    each = sends.each;
    backups = sends.backups;
    rows = sends.interfaces;
  }
  finish-Followed id name vlan s t saved (ok v) sends = record {
    sent = sends.sent;
    ops = sends.ops;
    each = sends.each;
    backups = sends.backups;
    rows = (ap (λ rows. set_vlan id name vlan rows) sends.interfaces, refl, refl);
  }

  saved-Followed :
      (id : ℕ) (name : Text) (vlan : ℕ) (is_reset : Bool) (s t : Bench)
      (saved : Result (Option Bool))
      → Sends (IsAfter spec) s t
      → Followed id name vlan s (
          and_then saved
            (λ sv.
              verify_vlan searches switch spec name vlan is_reset
              >>= λ (v : Option Bool) (u : Bench). (
                ok (record {
                  interface = name;
                  vlan_id = vlan;
                  backed_up = true;
                  saved = sv;
                  verified = v;
                }),
                record u { interfaces = set_vlan id name vlan u.interfaces },
              ))
            t)
  unfolding verify_vlan
  saved-Followed id name vlan is_reset s t (raised e) sends = record {
    sent = sends.sent;
    ops = sends.ops;
    each = sends.each;
    backups = sends.backups;
    rows = sends.interfaces;
  }
  saved-Followed id name vlan is_reset s t (ok sv) sends =
      let patterns = both (is_filled spec.verify_command) (is_filled spec.verify_pattern) in
      let (verified, u) = verify_by searches switch spec patterns name vlan is_reset t in
      finish-Followed id name vlan s u sv verified
        (Sends-trans sends (verify_by-Sends patterns name vlan is_reset t))

  pub after_change-Followed :
      (id : ℕ) (name : Text) (vlan : ℕ) (is_reset : Bool) (s : Bench)
      → Followed id name vlan s (after_change searches switch spec id name vlan is_reset s)
  unfolding after_change save_config
  after_change-Followed id name vlan is_reset s =
      let (saved, t) = save_lines searches switch spec spec.save s in
      saved-Followed id name vlan is_reset s t saved (save_lines-Sends spec.save s refl)

  pub Rows-from :
      (id : ℕ) (name : Text) (vlan : ℕ) (s v : Bench) (result : Result PortVlanResult) (t : Bench)
      → v.interfaces ≡ s.interfaces
      → Rows id name vlan v result t
      → Rows id name vlan s result t
  Rows-from id name vlan s v (raised e) t same rows = rows ∙ same
  Rows-from id name vlan s v (ok r) t same (rows, interface, number) =
      (rows ∙ ap (set_vlan id name vlan) same, interface, number)
