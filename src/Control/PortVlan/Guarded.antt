-- ===== src/Control/PortVlan/Guarded.antt =====
-- What a change of a port's VLAN does to the switch and the tables, on every path.
use netbuddy.Base.{
  IsFirst, subst, ◌&&◌, ◌==◌, nat_eq, list_eq, text, sym, ok_injective, ℕ, Text, ◌≡◌, refl, ◌∙◌, ap,
  Bool, true, false, List, [], ◌∷◌, ◌++◌, append_assoc, some, Result, ok, raised, Exception,
  and_then, All, Result-cases, Bool-cases, ◌⊎◌, inl, inr,
}
use netbuddy.Profile.{PortVlanControlSpec}
use netbuddy.Format.{format}
use netbuddy.Hardware.{Op, config, fetch_config, Switch}
use netbuddy.Control.Bench.{Bench, InterfaceRow}
use netbuddy.Control.Backup.{
  latest, digest_of, store_backup, store_backup-ok, backup_device, store_backup-latest,
}
use netbuddy.Control.Physical.{is_physical}
use netbuddy.Control.PortVlan.{
  PortVlanResult, change_lines, after_change, change, write_port_vlan, value_error, set_vlan,
}
use netbuddy.Control.PortVlan.Followed.{IsAfter, Rows, after_change-Followed, Rows-from}

-- The lines of the change: inside the profile's configuration mode, the context of this port around
-- the lines that change it.
abbrev pub IsChange : PortVlanControlSpec → Text → List Text → List Text → Type 0
IsChange spec name body lines =
    (enter : Text) × (format ((text "name", name) ∷ []) spec.interface_enter ≡ ok enter)
    × (lines ≡ spec.config_enter ++ enter ∷ (body ++ spec.interface_exit ∷ spec.config_exit))

change_lines-IsChange :
    (spec : PortVlanControlSpec) (name : Text) (body lines : List Text)
    → change_lines spec name body ≡ ok lines
    → IsChange spec name body lines
unfolding change_lines
change_lines-IsChange spec name body lines h =
    elim (Result-cases (format ((text "name", name) ∷ []) spec.interface_enter)) [
      | inl (e, fails) ↦ absurd (cc (rw (fails, change_lines) at h))
      | inr (enter, fills) ↦ (enter, fills, sym (ok_injective (rw (fills, change_lines) at h)))
    ]

abbrev is_row : ℕ → Text → InterfaceRow → Bool
is_row id name r = r.device_id == id && r.name == name

-- The first row of the device with this name has the VLAN, and all else is as before.
abbrev pub IsUpdated : ℕ → Text → ℕ → List InterfaceRow → List InterfaceRow → Type 0
IsUpdated id name vlan rows rows' =
    (All (λ r. is_row id name r ≡ false) rows × (rows' ≡ rows))
    ⊎ ((r : InterfaceRow) × (first : IsFirst (is_row id name) rows r) × (rows'
          ≡ first.before ++ record r { vlan_id = some vlan } ∷ first.after))

set_vlan-IsUpdated :
    (id : ℕ) (name : Text) (vlan : ℕ) (rows : List InterfaceRow)
    → IsUpdated id name vlan rows (set_vlan id name vlan rows)
unfolding set_vlan
set_vlan-IsUpdated id name vlan [] = inl (tt, refl)
set_vlan-IsUpdated id name vlan (q ∷ rows) = elim (Bool-cases (is_row id name q)) [
  | inl here ↦
      rw here (
        inr
          (q, record { before = []; after = rows; split = refl; others = tt; holds = here }, refl))
  | inr other ↦ rw other (elim (set_vlan-IsUpdated id name vlan rows) [
    | inl (none_there, same) ↦ inl ((refl, none_there), ap (λ l. q ∷ l) same)
    | inr (r, first, changes) ↦ inr (
      r,
      record {
        before = q ∷ first.before;
        after = first.after;
        split = ap (λ l. q ∷ l) first.split;
        others = (other, first.others);
        holds = first.holds;
      },
      ap (λ l. q ∷ l) changes,
    )
  ])
]

Rows-IsUpdated :
    (searches : Text → Text → Bool) (switch : Switch) (spec : PortVlanControlSpec) (id : ℕ)
    (name : Text) (vlan : ℕ) (s : Bench) (result : Result PortVlanResult) (t : Bench)
    → Rows searches switch spec id name vlan s result t
    → (r : PortVlanResult) → result ≡ ok r
    → IsUpdated id name vlan s.interfaces t.interfaces
Rows-IsUpdated searches switch spec id name vlan s (raised e) t rows r h = absurd (cc)
Rows-IsUpdated searches switch spec id name vlan s (ok q) t (rows, _, _) r h =
    subst (IsUpdated id name vlan s.interfaces) (sym rows)
      (set_vlan-IsUpdated id name vlan s.interfaces)

-- How a change of a port's VLAN can end. `s` is the state before, `t` the one after.
pub data Written (searches : Text → Text → Bool) (switch : Switch) (spec : PortVlanControlSpec)
    (sha256 : Text → Text) (id : ℕ) (name : Text) (body : List Text) (vlan : ℕ) (s : Bench)
    (result : Result PortVlanResult) (t : Bench) : Type 0 where
  -- The port is not a physical one: nothing is done.
  not_physical :
      is_physical name ≡ false
      → result ≡ raised value_error
      → t ≡ s
      → Written searches switch spec sha256 id name body vlan s result t
  -- The configuration could not be read: nothing is written.
  not_backed_up :
      (e : Exception)
      → is_physical name ≡ true
      → switch.on_get_config s.ops ≡ raised e
      → result ≡ raised e
      → t.ops ≡ s.ops ++ fetch_config ∷ []
      → t.backups ≡ s.backups
      → t.interfaces ≡ s.interfaces
      → Written searches switch spec sha256 id name body vlan s result t
  -- The configuration was read and is the device's newest backup, but the change failed: its lines
  -- could not be filled in, or the switch refused them. The inventory is as it was.
  not_changed :
      (content : Text) (e : Exception) (sent : List Op)
      → is_physical name ≡ true
      → switch.on_get_config s.ops ≡ ok content
      → digest_of (latest id t.backups) ≡ some (sha256 content)
      → result ≡ raised e
      → t.ops ≡ s.ops ++ fetch_config ∷ sent
      → ((change_lines spec name body ≡ raised e) × (sent ≡ []))
        ⊎ ((lines : List Text) × (change_lines spec name body ≡ ok lines)
            × (sent ≡ config lines ∷ []))
      → t.interfaces ≡ s.interfaces
      → Written searches switch spec sha256 id name body vlan s result t
  -- The change was sent, behind the backup, and followed by the save sequence and reads alone.
  changed :
      (content : Text) (lines : List Text) (more : List Op)
      → is_physical name ≡ true
      → switch.on_get_config s.ops ≡ ok content
      → digest_of (latest id t.backups) ≡ some (sha256 content)
      → change_lines spec name body ≡ ok lines
      → IsChange spec name body lines
      → t.ops ≡ s.ops ++ fetch_config ∷ config lines ∷ more
      → All (IsAfter spec) more
      → Rows searches switch spec id name vlan s result t
      → ((r : PortVlanResult) → result ≡ ok r → IsUpdated id name vlan s.interfaces t.interfaces)
      → Written searches switch spec sha256 id name body vlan s result t

module _ (searches : Text → Text → Bool) (switch : Switch) (spec : PortVlanControlSpec)
    (sha256 : Text → Text) (id : ℕ) (name : Text) (body : List Text) (vlan : ℕ)
    (is_reset : Bool) where
  abbrev HasWritten : Bench → Result PortVlanResult × Bench → Type 0
  HasWritten s outcome = Written searches switch spec sha256 id name body vlan s outcome.0 outcome.1

  -- From a state `u` behind the backup of `content`.
  module _ (s u : Bench) (content : Text) (physical : is_physical name ≡ true)
      (reads : switch.on_get_config s.ops ≡ ok content)
      (backed_up : digest_of (latest id u.backups) ≡ some (sha256 content))
      (ops : u.ops ≡ s.ops ++ fetch_config ∷ []) (rows : u.interfaces ≡ s.interfaces) where
    sent-Written :
        (lines : List Text) (answer : Result Text)
        → change_lines spec name body ≡ ok lines
        → HasWritten s (
            and_then answer
              (λ out. after_change searches switch spec id name vlan is_reset)
              (record u { ops = u.ops ++ config lines ∷ [] }))
    sent-Written lines (raised e) filled =
        not_changed content e (config lines ∷ []) physical reads backed_up refl
          (ap (λ l. l ++ config lines ∷ []) ops
            ∙ append_assoc s.ops (fetch_config ∷ []) (config lines ∷ []))
          (inr (lines, filled, refl)) rows
    sent-Written lines (ok out) filled =
        let v : Bench = record u { ops = u.ops ++ config lines ∷ [] } in
        let f = after_change-Followed searches switch spec id name vlan is_reset v in
        changed content lines f.sent physical reads (rw f.backups backed_up) filled
          (change_lines-IsChange spec name body lines filled) (f.ops ∙ rw ops (simp append_assoc))
          f.each (Rows-from searches switch spec id name vlan s v _ _ rows f.rows)
          (Rows-IsUpdated searches switch spec id name vlan s _ _
            (Rows-from searches switch spec id name vlan s v _ _ rows f.rows))

    change-Written : HasWritten s (change searches switch spec id name body vlan is_reset u)
    unfolding change
    change-Written = elim (Result-cases (change_lines spec name body)) [
      | inl (e, fails) ↦
          rw fails
            (not_changed content e [] physical reads backed_up refl ops (inl (fails, refl)) rows)
      | inr (lines, filled) ↦ rw filled (sent-Written lines (switch.on_config u.ops lines) filled)
    ]

  backed-Written :
      (s : Bench) (answer : Result Text)
      → is_physical name ≡ true
      → switch.on_get_config s.ops ≡ answer
      → HasWritten s (
          let (backup, u) =
            and_then answer
              (store_backup sha256 id)
              (record s { ops = s.ops ++ fetch_config ∷ [] }) in
          and_then backup (λ _. change searches switch spec id name body vlan is_reset) u)
  backed-Written s (raised e) physical fails = not_backed_up e physical fails refl refl refl refl
  backed-Written s (ok content) physical reads =
      let s1 : Bench = record s { ops = s.ops ++ fetch_config ∷ [] } in
      let (r, stored) = store_backup-ok sha256 id content s1 in
      let (backed_up, _, ops, rows) = store_backup-latest sha256 id content s1 in
      rw stored (
        change-Written s (store_backup sha256 id content s1).1 content physical reads backed_up ops
          rows)

-- The write path of a port's VLAN ends in one of the ways of `Written`, whatever the switch answers:
-- only a physical port is written, only behind a backup of the configuration that the switch had,
-- and with one change, which only the save sequence and reads follow; the row of the port in the
-- inventory gets the new VLAN when the function returns, and no row changes when it raises.
pub write_port_vlan-Written :
    (searches : Text → Text → Bool) (switch : Switch) (spec : PortVlanControlSpec)
    (sha256 : Text → Text) (id : ℕ) (name : Text) (body : List Text) (vlan : ℕ) (is_reset : Bool)
    (s : Bench)
    → (let (result, t) = write_port_vlan searches switch spec sha256 id name body vlan is_reset s in
        Written searches switch spec sha256 id name body vlan s result t)
unfolding write_port_vlan backup_device
write_port_vlan-Written searches switch spec sha256 id name body vlan is_reset s =
    elim (Bool-cases (is_physical name)) [
      | inl physical ↦ rw physical (
          backed-Written searches switch spec sha256 id name body vlan is_reset s
            (switch.on_get_config s.ops) physical refl)
      | inr logical ↦ rw logical (not_physical logical refl refl)
    ]
